-- ===== src/Event/DedupKey.antt =====
-- The deduplication key names one logical record.
use jetstream_router.Common.{
  ◌≡◌, ap₂, head-eq_of_cons-eq, tail-eq_of_cons-eq, ◌≢◌, [], ◌∷◌, ◌++◌, All, arith,
}
use jetstream_router.Common.Str.{Str, lit}
use jetstream_router.Event.{Event, dedup_key}

-- No byte of the text is the separator `|`.
abbrev pub NoBar : Str → Type 0
NoBar = All (λ c. c ≢ b'|')

split_at_bar :
    (s s' : Str) {t t' : Str}
    → NoBar s
    → NoBar s'
    → s ++ (lit "|" ++ t) ≡ s' ++ (lit "|" ++ t')
    → (s ≡ s') × (t ≡ t')
split_at_bar [] [] h h' e = ground arith
split_at_bar [] (c ∷ s') h h' e = ground arith
split_at_bar (c ∷ s) [] h h' e = ground arith
split_at_bar (c ∷ s) (c' ∷ s') h h' e =
    let (same, rest) = split_at_bar s s' h.1 h'.1 (tail-eq_of_cons-eq e) in
    (ap₂ ◌∷◌ (head-eq_of_cons-eq e) same, rest)

-- Two events have the same dedup key only if they have the same DID, collection, rkey and
-- operation, provided that no DID, collection or rkey of the two holds the separator.
pub dedup_key_injective :
    (e f : Event)
    → NoBar e.did
    → NoBar f.did
    → NoBar e.key.collection
    → NoBar f.key.collection
    → NoBar e.rkey
    → NoBar f.rkey
    → dedup_key e ≡ dedup_key f
    → (e.did ≡ f.did)
      × (e.key.collection ≡ f.key.collection)
      × (e.rkey ≡ f.rkey)
      × (e.key.operation ≡ f.key.operation)
unfolding dedup_key
dedup_key_injective e f d d' c c' r r' same =
    let (did, rest) = split_at_bar e.did f.did d d' same in
    let (collection, rest') = split_at_bar e.key.collection f.key.collection c c' rest in
    let (rkey, operation) = split_at_bar e.rkey f.rkey r r' rest' in
    (did, collection, rkey, operation)
