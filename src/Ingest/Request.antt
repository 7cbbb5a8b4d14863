-- ===== src/Ingest/Request.antt =====
-- internal/jetstream/ingest.go: the URL that `subscribeURL` asks for. `net/url` and
-- `strconv.FormatInt` are arguments.
use jetstream_router.Common.{
  ◌≡◌, ◌⊎◌, refl, sym, ap, ◌∙◌, inl, inr, suc, false, Option, none, some, List, [], ◌∷◌, ◌++◌,
  arith, if◌then◌else◌, append-nil, append_assoc,
}
use jetstream_router.Common.Int.{ℤ, pos, ◌≤ℤ◌}
use jetstream_router.Common.Str.{Str, lit, ◌==◌, eq_refl}
use jetstream_router.Common.Maps.{lookup, insert, lookup-insert}
use jetstream_router.Ingest.{Ingestor, subscribe}
use jetstream_router.Ingest.Resume.{IsFloor, rewound, IsLapsed, subscribe_lem}

abbrev pub wanted_key : Str
wanted_key = lit "wantedCollections"

abbrev pub cursor_key : Str
cursor_key = lit "cursor"

-- `url.Values`
abbrev pub Values : Type 0
Values = List (Str × List Str)

-- `v[key]`
unfoldable pub values : Str → Values → List Str
values key q = elim (lookup key q) [ none ↦ [] | some vs ↦ vs ]

-- `Add` and `Set`
unfoldable pub add : Str → Str → Values → Values
add key v q = insert key (values key q ++ v ∷ []) q

unfoldable pub set : Str → Str → Values → Values
set key v q = insert key (v ∷ []) q

-- The loop over the wanted collections, with their key.
unfoldable pub add_all : Str → List Str → Values → Values
add_all key [] q = q
add_all key (c ∷ cs) q = add_all key cs (add key c q)

unfoldable pub set_cursor : (ℤ → Str) → Option ℤ → Values → Values
set_cursor format none q = q
set_cursor format (some c) q = set cursor_key (format c) q

-- `subscribeURL`; `parse` gives the query of a URL, and the URL with another query in its place.
-- `none` is the error of `parse`.
unfoldable pub subscribe_url :
    (Str → Option (Values × (Values → Str)))
    → (ℤ → Str)
    → (ℤ → ℤ)
    → Ingestor
    → Ingestor × Option Str
subscribe_url parse format since g = elim (parse g.cfg.url) [
  | none ↦ (g, none)
  | some (q, print) ↦
      let (g', c) = subscribe since g in
      (g', some (print (set_cursor format c (add_all wanted_key g.cfg.wanted_collections q))))
]

values-insert :
    (key asked : Str) (vs : List Str) (q : Values)
    → values asked (insert key vs q) ≡ (if key == asked then vs else values asked q)
unfolding values
values-insert key asked vs q = ground (arith, lookup-insert key asked vs q)

values-add_all :
    (key : Str) (cs : List Str) (q : Values) → values key (add_all key cs q) ≡ values key q ++ cs
unfolding add_all add
values-add_all key [] q = sym (append-nil (values key q))
values-add_all key (c ∷ cs) q =
    let ih = values-add_all key cs (add key c q) in
    ih
    ∙ ap (λ vs. vs ++ cs) (values-insert key key (values key q ++ c ∷ []) q ∙ rw (eq_refl key) refl)
    ∙ append_assoc (values key q) (c ∷ []) cs

add_all_others :
    (key asked : Str) (cs : List Str) (q : Values)
    → (key == asked) ≡ false
    → values asked (add_all key cs q) ≡ values asked q
unfolding add_all add
add_all_others key asked [] q other = refl
add_all_others key asked (c ∷ cs) q other =
    add_all_others key asked cs (add key c q) other
    ∙ values-insert key asked (values key q ++ c ∷ []) q
    ∙ rw (other) refl

-- The values of the cursor's key, from the position that is asked for.
abbrev pub cursor_values : (ℤ → Str) → Option ℤ → List Str → List Str
cursor_values format none before = before
cursor_values format (some c) before = format c ∷ []

set_cursor_lem :
    (format : ℤ → Str) (c : Option ℤ) (q : Values)
    → (values cursor_key (set_cursor format c q) ≡ cursor_values format c (values cursor_key q))
      × ((asked : Str)
          → (cursor_key == asked) ≡ false
          → values asked (set_cursor format c q) ≡ values asked q)
unfolding set_cursor set
set_cursor_lem format none q = (refl, λ asked other. refl)
set_cursor_lem format (some c) q = (
  values-insert cursor_key cursor_key (format c ∷ []) q ∙ rw (eq_refl cursor_key) refl,
  λ asked other. values-insert cursor_key asked (format c ∷ []) q ∙ rw (other) refl,
)

different : (cursor_key == wanted_key) ≡ false
unfolding ◌==◌
different = refl

different' : (wanted_key == cursor_key) ≡ false
unfolding ◌==◌
different' = refl

-- Where the URL of the configuration parses, and the rewind is not negative: subscribeURL returns
-- the URL with a query that adds the wanted collections, in order, to those that it had, and
-- keeps all other keys but that of the cursor; it sets the cursor only if there is a position
-- that has not lapsed, to the microsecond of the newest position less the rewind, which is not
-- after the newest one; for a position that has lapsed it counts a gap.
pub subscribe_url_lem :
    (parse : Str → Option (Values × (Values → Str))) (format : ℤ → Str) (since : ℤ → ℤ)
    (g : Ingestor) (q : Values) (print : Values → Str)
    → parse g.cfg.url ≡ some (q, print)
    → pos 0 ≤ℤ g.cfg.replay_rewind
    → (q' : Values) × (g' : Ingestor) × (subscribe_url parse format since g ≡ (g', some (print q')))
      × (values wanted_key q' ≡ values wanted_key q ++ g.cfg.wanted_collections)
      × ((key : Str)
          → (wanted_key == key) ≡ false
          → (cursor_key == key) ≡ false
          → values key q' ≡ values key q)
      × (((c : ℤ) × (values cursor_key q' ≡ format c ∷ [])
            × (g' ≡ g)
            × (pos 1 ≤ℤ g.cursor.latest)
            × ¬ IsLapsed since g
            × IsFloor c (rewound g)
            × (c ≤ℤ g.cursor.latest))
          ⊎ ((values cursor_key q' ≡ values cursor_key q)
              × (((g' ≡ record g { gaps = suc g.gaps })
                    × (pos 1 ≤ℤ g.cursor.latest)
                    × IsLapsed since g)
                  ⊎ ((g' ≡ g) × (g.cursor.latest ≤ℤ pos 0)))))
unfolding subscribe_url
subscribe_url_lem parse format since g q print parsed back = elim (subscribe_lem since g back) [
  | inl (c, ran, some_, held, floor, below) ↦ (
    asked (some c),
    g,
    built g (some c) ran,
    wanted (some c),
    others (some c),
    inl (c, cursor (some c), refl, some_, held, floor, below),
  )
  | inr (inl (ran, some_, late)) ↦ (
    asked none,
    _,
    built _ none ran,
    wanted none,
    others none,
    inr (cursor none, inl (refl, some_, late)),
  )
  | inr (inr (ran, fresh)) ↦ (
    asked none,
    g,
    built g none ran,
    wanted none,
    others none,
    inr (cursor none, inr (refl, fresh)),
  )
]
  where
    named : Values
    named = add_all wanted_key g.cfg.wanted_collections q

    asked : Option ℤ → Values
    asked c = set_cursor format c named

    built :
        (g' : Ingestor) (c : Option ℤ)
        → subscribe since g ≡ (g', c)
        → subscribe_url parse format since g ≡ (g', some (print (asked c)))
    built g' c ran = rw (parsed, subscribe_url, ran) refl

    wanted :
        (c : Option ℤ)
        → values wanted_key (asked c) ≡ values wanted_key q ++ g.cfg.wanted_collections
    wanted c =
        (set_cursor_lem format c named).1 wanted_key different
        ∙ values-add_all wanted_key g.cfg.wanted_collections q

    cursor :
        (c : Option ℤ) → values cursor_key (asked c) ≡ cursor_values format c (values cursor_key q)
    cursor c =
        (set_cursor_lem format c named).0
        ∙ ap (cursor_values format c)
            (add_all_others wanted_key cursor_key g.cfg.wanted_collections q different')

    others :
        (c : Option ℤ) (key : Str)
        → (wanted_key == key) ≡ false
        → (cursor_key == key) ≡ false
        → values key (asked c) ≡ values key q
    others c key far far' =
        (set_cursor_lem format c named).1 key far'
        ∙ add_all_others wanted_key key g.cfg.wanted_collections q far
