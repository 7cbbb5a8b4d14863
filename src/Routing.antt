-- ===== src/Routing.antt =====
-- internal/routing/routing.go: the routing table and the router.
pub mod Build
pub mod Precedence
pub mod Names
pub mod Reach
pub mod Filter
use jetstream_router.Common.{
  ℕ, suc, Bool, true, false, not, ◌&&◌, ◌||◌, Option, none, some, List, [], ◌∷◌, ◌++◌, Result, ok,
  err, ◌>>=◌, if◌then◌else◌, eqb,
}
use jetstream_router.Common.Str.{Str, lit, ◌==◌}
use jetstream_router.Common.Maps.{lookup, insert}
use jetstream_router.Event.{Key}
use jetstream_router.PathMatch.{MatchError, fails, path_match}

pub record Match : Type 0 where
  pub kind : Str
  pub collection : Str
  pub operation : Str

pub record Rule : Type 0 where
  pub match : Match
  pub route : Str

pub record Table : Type 0 where
  pub rules : List Rule
  pub fallback : Str

pub record Router : Type 0 where
  pub op_rules : List Rule
  pub coll_rules : List Rule
  pub fallback : Str

-- The errors of `New`, with the index of the rule and the glob that they name.
pub data NewError : Type 0 where
  no_fallback : NewError
  no_route : ℕ → NewError
  bad_glob : ℕ → Str → NewError

-- The two checks of a rule.
unfoldable pub check_rule : ℕ → Rule → Result NewError (Unit {0})
check_rule i rule =
    if rule.route == []
    then err (no_route i)
    else (if not (rule.match.collection == [])
          && fails (path_match rule.match.collection (lit "probe"))
        then err (bad_glob i rule.match.collection)
        else ok tt)

abbrev pub pins_operation : Rule → Bool
pins_operation rule = not (rule.match.operation == [])

unfoldable pub place : Rule → Router → Router
place rule r =
    if pins_operation rule
    then record r { op_rules = r.op_rules ++ rule ∷ [] }
    else record r { coll_rules = r.coll_rules ++ rule ∷ [] }

-- The loop of `New` over the rules from index `i` on.
unfoldable pub add_rules : ℕ → List Rule → Router → Result NewError Router
add_rules i [] r = ok r
add_rules i (rule ∷ rules) r = do _ ← check_rule i rule; add_rules (suc i) rules (place rule r)

unfoldable pub new : Table → Result NewError Router
new t =
    if t.fallback == []
    then err no_fallback
    else add_rules 0 t.rules (record { op_rules = []; coll_rules = []; fallback = t.fallback })

-- `err != nil || !ok` is a refusal.
abbrev pub accepted : Result MatchError Bool → Bool
accepted (ok b) = b
accepted (err e) = false

unfoldable pub matches : Match → Key → Bool
matches m k =
    if not (m.kind == []) && not (m.kind == k.kind)
    then false
    else (if not (m.operation == []) && not (m.operation == k.operation)
        then false
        else (if not (m.collection == [])
            then (if k.collection == []
                then false
                else accepted (path_match m.collection k.collection))
            else true))

-- A loop over rules that returns the first match's route.
unfoldable pub first_match : Key → List Rule → Option Str
first_match k [] = none
first_match k (rule ∷ rules) = if matches rule.match k then some rule.route else first_match k rules

unfoldable pub route : Router → Key → Str
route r k = elim (first_match k r.op_rules) [
  | some name ↦ name
  | none ↦ elim (first_match k r.coll_rules) [ some name ↦ name | none ↦ r.fallback ]
]

-- The local `seen` and `out` of `Routes`.
pub record Listing : Type 0 where
  pub seen : List (Str × Bool)
  pub out : List Str

-- `seen[name]`, which is false for a missing key.
abbrev pub was_seen : Option Bool → Bool
was_seen none = false
was_seen (some b) = b

unfoldable pub add_name : Str → Listing → Listing
add_name name l =
    if not (name == []) && not (was_seen (lookup name l.seen))
    then record l { seen = insert name true l.seen; out = l.out ++ name ∷ [] }
    else l

unfoldable pub add_routes : List Rule → Listing → Listing
add_routes [] l = l
add_routes (rule ∷ rules) l = add_routes rules (add_name rule.route l)

unfoldable pub routes : Router → List Str
routes r =
    let listed = add_routes r.coll_rules (add_routes r.op_rules (record { seen = []; out = [] })) in
    (add_name r.fallback listed).out

-- `strings.ContainsAny(c, "*?[")`
unfoldable pub is_glob : Str → Bool
is_glob [] = false
is_glob (c ∷ s) = eqb c b'*' || eqb c b'?' || eqb c b'[' || is_glob s

unfoldable pub collect : List Rule → List Str
collect [] = []
collect (rule ∷ rules) =
    let rest = collect rules in
    if not (rule.match.collection == []) && not (is_glob rule.match.collection)
    then rule.match.collection ∷ rest
    else rest

unfoldable pub collections : Router → List Str
collections r = collect r.coll_rules
