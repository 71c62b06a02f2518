-- ===== src/Lib.antt =====
-- The backend of a unified communication product: a Django application in front of a FreeSWITCH
-- telephony server, which keeps tenants, users, extensions and phone numbers (DIDs), receives the
-- events of FreeSWITCH and Telnyx, and pushes notices to its clients over websockets.
--
-- How the parts interact. FreeSWITCH reports changes to apps/webhooks/views.py, which writes the
-- tables of tenants, extensions and DIDs, adds rows to the outbox, and logs the event without its
-- secrets. The worker of apps/outbox/tasks.py publishes the outbox to the groups of the channel layer.
-- Messages belong to conversations (apps/messaging/services.py), whose participants are matched with
-- contacts (apps/contacts/services.py). What a team lead may see is computed from access groups
-- (apps/common/tl_scoping.py). A desktop logs in with a code that a logged-in phone confirms
-- (apps/users/views.py), and the JSON columns of a user are validated (apps/users/validators.py).
--
-- Which file models which part:
--   Common, Json         Python's lists, sets, dictionaries and texts, query sets, and JSON values
--   Models               the tables of tenants, users and extensions (Models/Identity) and of DIDs and
--                        access groups (Models/Dids), from the models.py of those apps
--   Access               apps/common/permissions.py and apps/common/tenant_resolver.py
--   Scoping              apps/common/tl_scoping.py: the rows of the grants (Scoping/Grants) and the
--                        functions resolve_tl_* and is_scoped_team_lead (Scoping/Resolve)
--   Webhooks/Sanitize    apps/webhooks/views.py, sanitize_payload
--   Webhooks/FreeSwitch  apps/webhooks/views.py, FreeSwitchWebhookView.post: what it reads from the
--                        payload (Payload), resolve_or_create_tenant and provisioning (Tenants), the
--                        extension events (Extensions, with get_resource of
--                        apps/common/services/freeswitch_client.py), the DID events (Dids) and the
--                        whole handler
--                        (Post), over the tables of State; apps/webhooks/models.py, WebhookLog
--   Outbox               apps/outbox/models.py and apps/outbox/tasks.py (Outbox/Defs)
--   Contacts             apps/contacts/services.py, build_contact_lookup (Contacts/Lookup)
--   Cdr                  apps/common/cdr_views.py: which extensions a caller sees (Cdr/Scope), over query
--                        parameters (Cdr/Params)
--   Messaging            apps/messaging: models.py (Messaging/Defs), services.py (Messaging/Resolve,
--                        Messaging/Media and Messaging/Broadcast), SendMessageView of views.py
--                        (Messaging/Send), and the marks of what was read (Messaging/Reads)
--   Webhooks/Telnyx      apps/webhooks/views.py, TelnyxWebhookView: what it reads from the payload
--                        (Payload), delivery reports (Status), received messages (Inbound) and the whole
--                        handler (Post); Reached has sending, receiving and reading as a step relation
--   Users/QrLogin        apps/users/views.py, the three QR login views, as the function `handle` of
--                        requests with their times; apps/users/models.py, QRLoginToken
--   Users/Features       apps/users/models.py, effective_features and effective_sip_domain;
--                        apps/tenants/models.py, is_feature_enabled
--   Users/Assign         apps/users/views.py, the views that give a user an extension, DIDs, fax boxes and
--                        voicemail boxes (Users/Assign/Tables and Users/Assign/Views)
--   Users/Create         apps/users/serializers.py where it creates a user: the references of a request
--                        (Refs) and what is saved (Save), with create_user of apps/users/managers.py
--   Users/Login          apps/users/serializers.py, LoginSerializer; the password hasher is an argument
--   Users/Validators     apps/users/validators.py, validate_fax_boxes and validate_voicemail_boxes
-- The other files of a folder hold the proofs, named for what they prove, and Tests its examples.
--
-- How the code corresponds. A table is a list of rows in the order of the query, a row is a record of
-- the columns that the operations use, and ids are numbers. A query is `select`, `first`, `any` or
-- `update_where` with its condition, and `order_by` is a stable sort. A view is a function from the
-- tables and the request to the tables and the response. Requests are atomic (ATOMIC_REQUESTS in
-- config/settings/base.py), so a request that ends in an exception, a broken unique or NOT NULL
-- constraint included, changes nothing: the FreeSWITCH view and resolve_conversation give `none`
-- there, as do sending and the Telnyx view, and the QR views the answer `server_error`. A new row takes its id from a counter.
--
-- Parameters. What the channel layer does with a message and the time at which a row is marked are
-- arguments of the worker. The clock, encryption, the parsers of UUIDs and dates, what the
-- FreeSWITCH server answers to a key and a path, Python's text of a list or a dict, the text of a
-- UUID and the collation of the database are the record `Services` of Webhooks/FreeSwitch/State. The clock, the texts of UUIDs and
-- times and the download of a URL are the record `Outside` of Messaging/Defs; the check of a signature
-- and the call of the Telnyx API are arguments. The hash of a password and the temporary password are
-- in the record `Helpers` of Users/Create/Defs. Times and sessions are arguments.
-- Of the password check, an argument of the login, it is assumed that it accepts a password against its
-- own hash, and nothing of the others.
--
-- Bounds and fuel. The worker takes the first 500 pending rows. A QR token lives for 300 seconds. The
-- only recursion on fuel is that of `decimal`, which prints a number: every step divides the number by
-- ten, so the number itself is enough steps. All other loops are structural.
--
-- Not modelled. Case, white space and digits are those of ASCII. The lengths of columns are not
-- checked, and floats are kept as their text. Deleting a DID deletes its assignments to users, but the
-- rows of conversations and access groups that go with it are left out. The other serializers and
-- list views, the proxies to FreeSWITCH (call records, recordings, faxes, voicemail), updates of
-- users, the change of passwords, sessions, audit, downloads, and the configuration are not part of it.
pub mod Access
pub mod Cdr
pub mod Common
pub mod Contacts
pub mod Json
pub mod Messaging
pub mod Models
pub mod Outbox
pub mod Scoping
pub mod Users
pub mod Webhooks
