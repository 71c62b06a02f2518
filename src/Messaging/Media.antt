-- ===== src/Messaging/Media.antt =====
-- apps/messaging/services.py, `download_message_media` and `_extension_for_content_type`. `none` is an
-- exception that is no `httpx.HTTPError`.
use mathlib.Core.List.{reverse}
use unified_communication_ba.Common.{
  ℕ, ◌+◌, not, Option, none, some, List, [], ◌∷◌, ◌++◌, Text, codes, strip, nat_eq, list_eq,
  nat_beq, leb, length, if◌then◌else◌, Dict, get, any,
}
use unified_communication_ba.Messaging.Defs.{
  Media, Store, Outside, Fetched, answer, http_error, raises,
}

-- What stands before the first `c`.
unfoldable pub before : ℕ → Text → Text
before c [] = []
before c (d ∷ s) = let rest = before c s in if nat_beq d c then [] else d ∷ rest

-- What stands after the first `c`, if there is one.
unfoldable pub after : ℕ → Text → Option Text
after c [] = none
after c (d ∷ s) = let rest = after c s in if nat_beq d c then some s else rest

-- The extension, where the name before the dot has something else than dots.
abbrev pub suffix_of : Text → Option Text → Text
suffix_of ext none = []
suffix_of ext (some stem) = if any (λ c. not (nat_beq c b'.')) stem then b'.' ∷ reverse ext else []

-- `os.path.splitext(path)[1]`: the last dot of the last part of the path.
unfoldable pub url_suffix : Text → Text
unfolding before after any
url_suffix path =
    let name = before b'/' (reverse path) in suffix_of (before b'.' name) (after b'.' name)

abbrev pub common : Dict Text Text
common =
    (codes "image/jpeg", codes ".jpg")
    ∷ (codes "image/jpg", codes ".jpg")
    ∷ (codes "image/png", codes ".png")
    ∷ (codes "image/gif", codes ".gif")
    ∷ (codes "image/webp", codes ".webp")
    ∷ (codes "video/mp4", codes ".mp4")
    ∷ (codes "video/quicktime", codes ".mov")
    ∷ (codes "video/3gpp", codes ".3gp")
    ∷ (codes "audio/mpeg", codes ".mp3")
    ∷ (codes "audio/amr", codes ".amr")
    ∷ (codes "audio/ogg", codes ".ogg")
    ∷ (codes "application/pdf", codes ".pdf")
    ∷ []

abbrev pub short_suffix : Text → Text
short_suffix ext = if leb (length ext) 5 then ext else []

abbrev pub or_suffix : Option Text → Text → Text
or_suffix none ext = short_suffix ext
or_suffix (some known) ext = known

unfoldable pub extension_for_content_type : Text → Text → Text
unfolding get url_suffix before
extension_for_content_type content_type url =
    or_suffix (get content_type common) (url_suffix (before b'?' url))

-- `resp.headers.get("content-type", "").split(";")[0].strip()`
unfoldable pub content_type_of : Option Text → Text
unfolding before strip
content_type_of none = []
content_type_of (some header) = strip (before b';' header)

-- The row of a file: its name is a new UUID.
unfoldable pub new_media : Outside → ℕ → Text → Option Text → ℕ → ℕ → Media
unfolding content_type_of extension_for_content_type
new_media w message url header size id = record {
  id = id;
  message = message;
  source_url = url;
  file_path = w.uuid_text (id + 1) ++ extension_for_content_type (content_type_of header) url;
  content_type = content_type_of header;
  size_bytes = size;
}

-- One round of the loop.
unfoldable pub store_media : Outside → ℕ → Text → Fetched → Store → Option Store
unfolding new_media
store_media w message url (answer header size) s = some (record s {
  media = s.media ++ new_media w message url header size s.next_id ∷ [];
  next_id = s.next_id + 2;
})
store_media w message url http_error s = some s
store_media w message url raises s = none

unfoldable pub download_message_media : Outside → ℕ → List Text → Store → Option Store
unfolding store_media
download_message_media w message [] s = some s
download_message_media w message (url ∷ urls) s = elim (store_media w message url (w.fetch url) s) [
  | none ↦ none
  | some s' ↦ download_message_media w message urls s'
]
