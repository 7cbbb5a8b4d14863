-- ===== src/Config/Loading.antt =====
-- What `Load` accepts, and what the program does without a file.
use jetstream_router.Common.{
  ◌≡◌, ◌↔◌, ◌∙◌, ap, refl, subst, sym, Bool, true, false, none, some, [], Result, ok, err, arith,
  Bool-cases, inl, inr,
}
use jetstream_router.Common.Str.{Str, ◌==◌, eq_iff}
use jetstream_router.Config.{
  Config, ConfigError, default_config, validate, File, missing, unreadable, content, invalid,
  validated, decoded, load_file, load,
}

-- The configuration that `Load` validates: the defaults without a file, and what the decoder leaves
-- of them otherwise.
pub data Chosen (decode : Str → Config → Config × Bool) : Str → File → Config → Type 0 where
  no_path : {path : Str} {file : File} → path ≡ [] → Chosen decode path file default_config
  no_file : {path : Str} {file : File} → file ≡ missing → Chosen decode path file default_config
  from_file :
      {path : Str} {file : File} (b : Str) (cfg : Config)
      → (path == []) ≡ false
      → file ≡ content b
      → decode b default_config ≡ (cfg, true)
      → Chosen decode path file cfg

validated_iff :
    (made cfg : Config) → (validated made ≡ (cfg, none)) ↔ ((made ≡ cfg) × (validate made ≡ ok tt))
unfolding validated
validated_iff made cfg = choose (validate made) refl
  where
    choose :
        (x : Result ConfigError (Unit {0}))
        → validate made ≡ x
        → (validated made ≡ (cfg, none)) ↔ ((made ≡ cfg) × (validate made ≡ ok tt))
    choose (ok u) e =
        let to : validated made ≡ (made, none) = rw (e, validated) refl in
        (λ h. (ap (λ r. r.0) (sym to ∙ h), e), λ h. to ∙ ap (λ c. (c, none)) h.0)
    choose (err x) e =
        let to : validated made ≡ (made, some (invalid x)) = rw (e, validated) refl in
        (λ h. absurd (cc (ap (λ r. r.1) (sym to ∙ h))), λ h. absurd (ground (arith, h.1, e)))

-- `Load` validates what it chooses.
Chosen-load :
    (decode : Str → Config → Config × Bool) (path : Str) (file : File) (cfg : Config)
    → Chosen decode path file cfg
    → load decode path file ≡ validated cfg
unfolding load load_file decoded
Chosen-load decode path file cfg (no_path none_) =
    let empty = (eq_iff path []).1 none_ in rw (empty, load) refl
Chosen-load decode path file cfg (no_file absent) = elim (Bool-cases (path == [])) [
  | inl empty ↦ rw (empty, load) refl
  | inr named ↦ rw (named, load, absent) refl
]
Chosen-load decode path file cfg (from_file b made named there read) =
    rw (named, load, there) (ap (decoded path) read)

load-Chosen :
    (decode : Str → Config → Config × Bool) (path : Str) (file : File) (cfg : Config)
    → load decode path file ≡ (cfg, none)
    → (made : Config) × Chosen decode path file made × (validated made ≡ (cfg, none))
unfolding load load_file decoded
load-Chosen decode path file cfg ran = elim (Bool-cases (path == [])) [
  | inl empty ↦
      let to : load decode path file ≡ validated default_config = rw (empty, load) refl in
      (default_config, no_path ((eq_iff path []).0 empty), sym to ∙ ran)
  | inr named ↦
      let to : load decode path file ≡ load_file decode path file = rw (named, load) refl in
      choose named file refl (sym to ∙ ran)
]
  where
    result :
        (b : Str) (r : Config × Bool)
        → (path == []) ≡ false
        → file ≡ content b
        → decode b default_config ≡ r
        → decoded path r ≡ (cfg, none)
        → (made : Config) × Chosen decode path file made × (validated made ≡ (cfg, none))
    result b (made, true) named there read h = (made, from_file b made named there read, h)
    result b (made, false) named there read h = absurd (ground arith)

    choose :
        (path == []) ≡ false
        → (f : File) → file ≡ f
        → load_file decode path f ≡ (cfg, none)
        → (made : Config) × Chosen decode path file made × (validated made ≡ (cfg, none))
    choose named missing there h = (default_config, no_file there, h)
    choose named unreadable there h = absurd (ground arith)
    choose named (content b) there h = result b (decode b default_config) named there refl h

-- Load returns a configuration without an error exactly when Validate accepts it and it is the
-- defaults, with no path or no file there, or what the strict decoder makes of the defaults from
-- a file that can be read.
pub load_iff :
    (decode : Str → Config → Config × Bool) (path : Str) (file : File) (cfg : Config)
    → (load decode path file ≡ (cfg, none)) ↔ (Chosen decode path file cfg × (validate cfg ≡ ok tt))
load_iff decode path file cfg = (
  λ h.
      let (made, chosen, good) = load-Chosen decode path file cfg h in
      let (same, valid) = (validated_iff made cfg).0 good in
      (subst (Chosen decode path file) same chosen, subst (λ c. validate c ≡ ok tt) same valid),
  λ (chosen, valid).
      Chosen-load decode path file cfg chosen ∙ (validated_iff cfg cfg).1 (refl, valid),
)
