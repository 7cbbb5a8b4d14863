-- ===== src/Ingest/Resume.antt =====
-- Where a connection resumes, and how long it waits.
use jetstream_router.Common.{
  suc, ◌+◌, ◌*◌, ◌≤◌, ◌<◌, ◌≡◌, ◌⊎◌, ◌↔◌, refl, true, none, some, arith, Bool-cases, inl, inr,
}
use jetstream_router.Common.Int.{
  ℤ, pos, negsuc, ◌≤ℤ◌, ◌<ℤ◌, ltb_ℤ, -ℤ_parts, ◌-ℤ◌, ◌*ℤ◌, pos_part, neg_part,
}
use jetstream_router.Ingest.{Ingestor, unix_micro, resume_at, lapsed, subscribe}

-- The microsecond that a time in nanoseconds falls into.
abbrev pub IsFloor : ℤ → ℤ → Type 0
IsFloor c t =
    (pos_part c * 1000 + neg_part t ≤ pos_part t + neg_part c * 1000)
    × (pos_part t + neg_part c * 1000 < pos_part c * 1000 + neg_part t + 1000)

-- The newest position less the rewind, in nanoseconds.
abbrev pub rewound : Ingestor → ℤ
rewound g = (g.cursor.latest *ℤ pos 1000) -ℤ g.cfg.replay_rewind

-- A window for replay is configured, and more time has passed since that position.
abbrev pub IsLapsed : (ℤ → ℤ) → Ingestor → Type 0
IsLapsed since g = (pos 1 ≤ℤ g.cfg.replay_window) × (g.cfg.replay_window <ℤ since (rewound g))

lapsed_iff : (since : ℤ → ℤ) (g : Ingestor) → (lapsed since g ≡ true) ↔ IsLapsed since g
unfolding lapsed resume_at
lapsed_iff since g = (λ h. (ground arith, ground arith), λ h. ground (arith, h.0, h.1))

unix_micro-IsFloor : (t : ℤ) → IsFloor (unix_micro t) t
unfolding unix_micro
unix_micro-IsFloor (pos n) = (omega arith, omega arith)
unix_micro-IsFloor (negsuc n) = (omega arith, omega arith)

times_thousand :
    (a : ℤ)
    → pos_part (a *ℤ pos 1000) + neg_part a * 1000 ≡ neg_part (a *ℤ pos 1000) + pos_part a * 1000
unfolding ◌*ℤ◌
times_thousand (pos n) = ground arith
times_thousand (negsuc n) = ground arith

-- The position is not after the newest one: the rewind only goes back.
resume_bound :
    (g : Ingestor) (c : ℤ)
    → pos 0 ≤ℤ g.cfg.replay_rewind
    → IsFloor c (rewound g)
    → c ≤ℤ g.cursor.latest
resume_bound g c back (below, _) = omega (
  arith,
  below,
  back,
  times_thousand g.cursor.latest,
  -ℤ_parts (g.cursor.latest *ℤ pos 1000) g.cfg.replay_rewind,
)

-- With a rewind that is not negative, subscribeURL asks for a position only if there is one that
-- has not lapsed, and then for the microsecond of the newest position less the rewind, which is
-- not after the newest one; for a position that has lapsed it asks for none and counts a gap;
-- without a position it asks for none.
pub subscribe_lem :
    (since : ℤ → ℤ) (g : Ingestor)
    → pos 0 ≤ℤ g.cfg.replay_rewind
    → ((c : ℤ) × (subscribe since g ≡ (g, some c))
        × (pos 1 ≤ℤ g.cursor.latest)
        × ¬ IsLapsed since g
        × IsFloor c (rewound g)
        × (c ≤ℤ g.cursor.latest))
      ⊎ (((subscribe since g ≡ (record g { gaps = suc g.gaps }, none))
            × (pos 1 ≤ℤ g.cursor.latest)
            × IsLapsed since g)
          ⊎ ((subscribe since g ≡ (g, none)) × (g.cursor.latest ≤ℤ pos 0)))
unfolding subscribe resume_at
subscribe_lem since g back = elim (Bool-cases (ltb_ℤ (pos 0) g.cursor.latest)) [
  | inr fresh ↦ inr (inr (rw (fresh, subscribe) refl, ground arith))
  | inl resumes ↦ elim (Bool-cases (lapsed since g)) [
    | inl late ↦
        inr (inl (rw (resumes, subscribe, late) refl, ground arith, (lapsed_iff since g).0 late))
    | inr held ↦
        let floor = unix_micro-IsFloor (rewound g) in
        inl (
          unix_micro (rewound g),
          rw (resumes, subscribe, held) refl,
          ground arith,
          λ late. cc (held, (lapsed_iff since g).1 late),
          floor,
          resume_bound g (unix_micro (rewound g)) back floor,
        )
  ]
]
