-- ===== src/InstancePermission/Levels.antt =====
-- `GetUserDatasourcePermissionLevels` and `highestPermission`
-- (scheduler/internal/service/instance_permission.go): one type for each data source.
use bdopsflow.Prelude.{
  ℕ, ◌≡◌, ap, Bool, true, ◌&&◌, List, [], ◌∷◌, Option, none, some, if◌then◌else◌, ◌==◌, any, arith,
  Bool-cases, inl, inr, ◌⊎◌,
}
use Prim.Native.Nat.{max}
use bdopsflow.Permission.{rows, ok, readable}
use bdopsflow.InstancePermission.{
  Instances, set_level, counts, levels, get_user_datasource_permission_levels, read_levels,
}
use bdopsflow.InstancePermission.Types.{
  PermType, same, permission_weight, highest_permission, heavier,
}
use bdopsflow.InstancePermission.Inclusion.{same_refl}

abbrev or_zero : Option ℕ → ℕ
or_zero none = 0
or_zero (some n) = n

-- The weight of a type, 0 for one that has none.
unfoldable pub weight : PermType → ℕ
weight p = or_zero (permission_weight p)

-- The entry of a data source in the map.
pub level_of : List (ℕ × PermType) → ℕ → Option PermType
level_of [] d = none
level_of (e ∷ es) d = if e.0 == d then some e.1 else level_of es d

abbrev pub level_weight : Option PermType → ℕ
level_weight none = 0
level_weight (some p) = weight p

-- The greatest weight among the rows of a data source that count.
pub best : List (ℕ × PermType) → ℕ → ℕ
best [] d = 0
best (r ∷ rs) d =
    let rest = best rs d in if counts r && r.0 == d then max (weight r.1) rest else rest

-- Is there a row of the data source with the type?
abbrev pub has_row : List (ℕ × PermType) → ℕ → PermType → Bool
has_row rs d p = any (λ r. counts r && (r.0 == d && same r.1 p)) rs

-- The heavier of two types is one of them, and no lighter than either.
highest_permission-weight :
    (a b : PermType) → weight (highest_permission a b) ≡ max (weight a) (weight b)
unfolding weight highest_permission heavier
highest_permission-weight a b = ground arith

highest_permission-one :
    (a b : PermType) → (highest_permission a b ≡ a) ⊎ (highest_permission a b ≡ b)
unfolding highest_permission heavier
highest_permission-one a b = ground arith

set_level-weight :
    (es : List (ℕ × PermType)) (d : ℕ) (p : PermType) (x : ℕ)
    → level_weight (level_of (set_level es d p) x) ≡ (
        if d == x
        then max (level_weight (level_of es x)) (weight p)
        else level_weight (level_of es x))
unfolding set_level level_of
set_level-weight [] d p x = ground arith
set_level-weight (e ∷ es) d p x =
    ground (arith, set_level-weight es d p x, highest_permission-weight e.1 p)

levels-weight :
    (acc rs : List (ℕ × PermType)) (x : ℕ)
    → level_weight (level_of (levels acc rs) x) ≡ max (level_weight (level_of acc x)) (best rs x)
unfolding levels best
levels-weight acc [] x = ground arith
levels-weight acc (r ∷ rs) x = ground (
  arith,
  levels-weight acc rs x,
  levels-weight (set_level acc r.0 r.1) rs x,
  set_level-weight acc r.0 r.1 x,
)

levels-best :
    (rs : List (ℕ × PermType)) (x : ℕ) → level_weight (level_of (levels [] rs) x) ≡ best rs x
unfolding level_of
levels-best rs x = ground (arith, levels-weight [] rs x)

set_level-origin :
    (es : List (ℕ × PermType)) (d : ℕ) (p : PermType) (x : ℕ) (q : PermType)
    → level_of (set_level es d p) x ≡ some q
    → (level_of es x ≡ some q) ⊎ (((d == x) ≡ true) × (p ≡ q))
unfolding set_level level_of
set_level-origin [] d p x q h = ground arith
set_level-origin (e ∷ es) d p x q h =
    ground (arith, set_level-origin es d p x q, highest_permission-one e.1 p)

levels-origin :
    (acc rs : List (ℕ × PermType)) (x : ℕ) (q : PermType)
    → level_of (levels acc rs) x ≡ some q
    → (level_of acc x ≡ some q) ⊎ (has_row rs x q ≡ true)
unfolding levels
levels-origin acc [] x q h = inl h
levels-origin acc (r ∷ rs) x q h = elim (Bool-cases (counts r)) [
  | inl yes_counts ↦ elim (levels-origin (set_level acc r.0 r.1) rs x q (rw yes_counts at h)) [
    | inl old ↦ elim (set_level-origin acc r.0 r.1 x q old) [
      | inl older ↦ inl older
      | inr (e, f) ↦ inr (ground (arith, same_refl q))
    ]
    | inr later ↦ inr (ground arith)
  ]
  | inr no_counts ↦ elim (levels-origin acc rs x q (rw no_counts at h)) [
    | inl old ↦ inl old
    | inr later ↦ inr (ground arith)
  ]
]

-- Where the statement answers, the level of a data source is the type of one of its rows that count,
-- and weighs as much as the heaviest of them; a data source with no such row weighs nothing.
pub get_user_datasource_permission_levels-best :
    {S : Type 0} (table : Instances S) (u d : ℕ) (ds : List ℕ) (s : S)
    (rs : List (Option (ℕ × PermType)))
    → table.granted_types (d ∷ ds) u s ≡ rows rs
    → (m : List (ℕ × PermType)) × (get_user_datasource_permission_levels table u (d ∷ ds) s ≡ ok m)
      × ((x : ℕ) → level_weight (level_of m x) ≡ best (readable rs) x)
      × ((x : ℕ) (p : PermType) → level_of m x ≡ some p → has_row (readable rs) x p ≡ true)
unfolding get_user_datasource_permission_levels read_levels level_of
get_user_datasource_permission_levels-best table u d ds s rs h = (
  levels [] (readable rs),
  ap read_levels h,
  levels-best (readable rs),
  λ x p e. from_rows x p (levels-origin [] (readable rs) x p e),
)
  where
    from_rows :
        (x : ℕ) (p : PermType)
        → (none ≡ some p) ⊎ (has_row (readable rs) x p ≡ true)
        → has_row (readable rs) x p ≡ true
    from_rows x p (inl e) = cc
    from_rows x p (inr r) = r
