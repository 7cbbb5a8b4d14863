-- ===== src/Handler/Content.antt =====
-- internal/handler/content.go. What it takes from Go's library is an argument: `to_lower` and
-- `trim_space` of `strings`, and `matches`, which tells whether the pattern compiled from a
-- keyword matches a text.
pub mod Filters
pub mod Laws
use jetstream_router.Common.{
  ℕ, Bool, true, false, ◌||◌, Option, none, some, List, [], ◌∷◌, if◌then◌else◌, not, length,
}
use jetstream_router.Common.Int.{pos}
use jetstream_router.Common.Str.{Str, lit, ◌==◌}
use jetstream_router.Common.Maps.{insert}
use jetstream_router.Event.{Event, op_delete}
use jetstream_router.Handler.Retraction.{index}
use jetstream_router.Handler.Alerts.{Attr, text, number, texts, Alert, decode, lower}

-- `postRecord`, of which `text` is `body` here.
pub record PostRecord : Type 0 where
  pub body : Str
  pub langs : List Str

-- `pattern` is the keyword that `re` is compiled from.
pub record Keyword : Type 0 where
  pub word : Str
  pub pattern : Str

pub record Content : Type 0 where
  pub patterns : List Keyword
  pub langs : List (Str × Bool)

unfoldable pub add_langs : List Str → List (Str × Bool) → List (Str × Bool)
add_langs [] m = m
add_langs (l ∷ ls) m = add_langs ls (insert l true m)

-- The loop of `Handle` over the languages of a post.
unfoldable pub speaks : List (Str × Bool) → List Str → Bool
speaks m [] = false
speaks m (l ∷ ls) = if index l m then true else speaks m ls

-- The alert of a post that matches: its length, not its content.
unfoldable pub matched : Event → PostRecord → List Str → Alert
matched ev rec hit = record {
  level = lit "info";
  route = lit "content";
  msg = lit "keyword matched";
  attrs =
      (lit "did", text ev.did)
      ∷ (lit "rkey", text ev.rkey)
      ∷ (lit "matched", texts hit)
      ∷ (lit "langs", texts rec.langs)
      ∷ (lit "text_len", number (pos (length rec.body)))
      ∷ [];
}

module _ (to_lower trim_space : Str → Str) where
  unfoldable pub add_patterns : List Str → List Keyword
  add_patterns [] = []
  add_patterns (w ∷ ws) =
      let rest = add_patterns ws in
      let word = trim_space w in
      if word == [] then rest else record { word = to_lower word; pattern = word } ∷ rest

  -- `NewContent`
  unfoldable pub new_content : List Str → List Str → Content
  new_content keywords langs = record {
    patterns = add_patterns keywords;
    langs = add_langs (lower to_lower langs) [];
  }

-- Whether a post passes the language filter.
unfoldable pub language_passes : (Str → Str) → List (Str × Bool) → PostRecord → Bool
language_passes to_lower [] rec = true
language_passes to_lower (l ∷ ls) rec = speaks (l ∷ ls) (lower to_lower rec.langs)

-- The loop of `Handle` over the patterns.
unfoldable pub hits : (Str → Str → Bool) → List Keyword → Str → List Str
hits matches [] body = []
hits matches (k ∷ ks) body =
    let rest = hits matches ks body in if matches k.pattern body then k.word ∷ rest else rest

module _ (to_lower : Str → Str) (matches : Str → Str → Bool)
    (unmarshal : Str → Option PostRecord) where
  -- `Handle`, from where the post is decoded.
  unfoldable pub handle_post : Content → Event → PostRecord → List Alert
  handle_post c ev rec =
      if not (language_passes to_lower c.langs rec)
      then []
      else (elim (hits matches c.patterns rec.body) [
        | [] ↦ []
        | h ∷ hs ↦ matched ev rec (h ∷ hs) ∷ []
      ])

  -- `Handle`
  unfoldable pub handle : Content → Event → List Alert
  handle c ev = if ev.key.operation == op_delete then [] else (elim (decode unmarshal ev.body) [
    | none ↦ []
    | some rec ↦ if rec.body == [] then [] else handle_post c ev rec
  ])
