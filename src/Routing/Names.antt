-- ===== src/Routing/Names.antt =====
-- What the loop of `Routes` lists, of a router.
use jetstream_router.Common.{
  ◌≡◌, ◌≢◌, ◌⊎◌, ◌↔◌, refl, inl, inr, sym, subst, true, false, List, [], ◌∷◌, ◌++◌, Has, IsOnce,
  Has-append_left, Has-append_right, Has-append, arith, Bool-cases,
}
use jetstream_router.Common.Str.{Str, ◌==◌, eq_iff}
use jetstream_router.Common.Maps.{lookup, insert, lookup-insert}
use jetstream_router.Routing.{Rule, Router, Listing, was_seen, add_name, add_routes, routes}

IsOnce-concat : (xs : List Str) (x : Str) → IsOnce xs → ¬ Has x xs → IsOnce (xs ++ x ∷ [])
IsOnce-concat [] x o h = (λ k. k, tt)
IsOnce-concat (y ∷ xs) x (first, o) h = (
  λ k. elim (Has-append y xs (x ∷ []) k) [
    | inl old ↦ first old
    | inr (inl e) ↦ h (inl (sym e))
    | inr (inr impossible) ↦ impossible
  ],
  IsOnce-concat xs x o (λ k. h (inr k)),
)

-- The local map and the local slice hold the same names.
record Agrees (l : Listing) : Type 0 where
  same : (m : Str) → (was_seen (lookup m l.seen) ≡ true) ↔ Has m l.out
  once : IsOnce l.out

-- A name that is not empty.
abbrev pub Named : Str → Str → Type 0
Named n m = (n ≢ []) × (n ≡ m)

Step : Str → Listing → Listing → Type 0
Step n l l' = Agrees l' × ((m : Str) → Has m l'.out ↔ (Has m l.out ⊎ Named n m))

add_name-new :
    (n : Str) (l : Listing)
    → Agrees l
    → n ≢ []
    → was_seen (lookup n l.seen) ≡ false
    → Step n l (record { seen = insert n true l.seen; out = l.out ++ n ∷ [] })
unfolding Step
add_name-new n l a ne unseen = (
  record {
    same = λ m. (
      λ h. elim (Bool-cases (n == m)) [
        | inl e ↦ Has-append_right m l.out (n ∷ []) (inl ((eq_iff n m).0 e))
        | inr e ↦
            Has-append_left m l.out (n ∷ [])
              ((a.same m).0 (ground (arith, lookup-insert n m true l.seen)))
      ],
      λ h. elim (Has-append m l.out (n ∷ []) h) [
        | inl old ↦ ground (arith, lookup-insert n m true l.seen, (a.same m).1 old)
        | inr (inl e) ↦ ground (arith, lookup-insert n m true l.seen, (eq_iff n m).1 e)
        | inr (inr impossible) ↦ absurd impossible
      ],
    );
    once = IsOnce-concat l.out n a.once (λ k. cc ((a.same n).1 k, unseen));
  },
  λ m. (
    λ h. elim (Has-append m l.out (n ∷ []) h) [
      | inl old ↦ inl old
      | inr (inl e) ↦ inr (ne, e)
      | inr (inr impossible) ↦ absurd impossible
    ],
    elim [
      | inl old ↦ Has-append_left m l.out (n ∷ []) old
      | inr (_, e) ↦ Has-append_right m l.out (n ∷ []) (inl e)
    ],
  ),
)

add_name-old : (n : Str) (l : Listing) → Agrees l → (n ≡ []) ⊎ Has n l.out → Step n l l
unfolding Step
add_name-old n l a old = (
  a,
  λ m. (
    inl,
    elim [
      | inl h ↦ h
      | inr (ne, e) ↦ elim old [
        | inl empty ↦ absurd (ne empty)
        | inr h ↦ subst (λ x. Has x l.out) e h
      ]
    ],
  ),
)

add_name-Step : (n : Str) (l : Listing) → Agrees l → Step n l (add_name n l)
unfolding add_name
add_name-Step n l a = elim (Bool-cases (n == [])) [
  | inl empty ↦ rw (empty, add_name) (add_name-old n l a (inl ((eq_iff n []).0 empty)))
  | inr full ↦ elim (Bool-cases (was_seen (lookup n l.seen))) [
    | inl seen ↦ rw (full, add_name, seen) (add_name-old n l a (inr ((a.same n).0 seen)))
    | inr unseen ↦
        rw (full, add_name, unseen) (add_name-new n l a (λ e. cc (full, (eq_iff n []).1 e)) unseen)
  ]
]

-- The name is the route of one of the rules, and not empty.
abbrev pub RouteOf : List Rule → Str → Type 0
RouteOf rules m = (rule : Rule) × Has rule rules × Named rule.route m

add_routes-lem :
    (rules : List Rule) (l : Listing)
    → Agrees l
    → Agrees (add_routes rules l)
      × ((m : Str) → Has m (add_routes rules l).out ↔ (Has m l.out ⊎ RouteOf rules m))
unfolding add_routes Step
add_routes-lem [] l a =
    (a, λ m. (inl, elim [ inl h ↦ h | inr (_, impossible, _) ↦ absurd impossible ]))
add_routes-lem (rule ∷ rules) l a =
    let (a', one) = add_name-Step rule.route l a in
    let (a'', more) = add_routes-lem rules (add_name rule.route l) a' in
    (
      a'',
      λ m. (
        λ h. elim ((more m).0 h) [
          | inl early ↦ elim ((one m).0 early) [
            | inl old ↦ inl old
            | inr here ↦ inr (rule, inl refl, here)
          ]
          | inr (other, listed, named) ↦ inr (other, inr listed, named)
        ],
        elim [
          | inl old ↦ (more m).1 (inl ((one m).1 (inl old)))
          | inr (other, inl e, named) ↦
              (more m).1 (inl ((one m).1 (inr (subst (λ x. Named x.route m) (sym e) named))))
          | inr (other, inr listed, named) ↦ (more m).1 (inr (other, listed, named))
        ],
      ),
    )

empty_listing-Agrees : Agrees (record { seen = []; out = [] })
empty_listing-Agrees = record { same = λ m. unfold lookup in ground arith; once = tt }

abbrev pub Lists : Router → Str → Type 0
Lists r m = RouteOf r.op_rules m ⊎ (RouteOf r.coll_rules m ⊎ Named r.fallback m)

pub routes-lem : (r : Router) → IsOnce (routes r) × ((m : Str) → Has m (routes r) ↔ Lists r m)
unfolding routes Step
routes-lem r =
    let start : Listing = record { seen = []; out = [] } in
    let (a, ops) = add_routes-lem r.op_rules start empty_listing-Agrees in
    let (b, colls) = add_routes-lem r.coll_rules (add_routes r.op_rules start) a in
    let (c, last) =
      add_name-Step r.fallback (add_routes r.coll_rules (add_routes r.op_rules start)) b in
    (
      c.once,
      λ m. (
        λ h. elim ((last m).0 h) [
          | inr named ↦ inr (inr named)
          | inl before ↦ elim ((colls m).0 before) [
            | inr coll ↦ inr (inl coll)
            | inl early ↦ elim ((ops m).0 early) [ inr op ↦ inl op | inl none_ ↦ absurd none_ ]
          ]
        ],
        elim [
          | inl op ↦ (last m).1 (inl ((colls m).1 (inl ((ops m).1 (inr op)))))
          | inr (inl coll) ↦ (last m).1 (inl ((colls m).1 (inr coll)))
          | inr (inr named) ↦ (last m).1 (inr named)
        ],
      ),
    )
