-- ===== src/Permission/Roles/Members.antt =====
-- Membership in the list of roles that expandRoleInheritance collects
-- (scheduler/internal/service/permission_service.go).
use bdopsflow.Prelude.{
  ℕ, ◌+◌, ◌≤◌, ◌<◌, ◌≡◌, refl, Bool, true, false, not, ◌&&◌, ◌||◌, List, [], ◌∷◌, ◌++◌, arith,
  if◌then◌else◌, Bool-cases, inl, inr, ◌⊎◌, length, ◌==◌,
}
use bdopsflow.Permission.Roles.{contains}

pub contains-append :
    (xs ys : List ℕ) (x : ℕ) → contains (xs ++ ys) x ≡ (contains xs x || contains ys x)
contains-append [] ys x = refl
contains-append (y ∷ xs) ys x = ground (arith, contains-append xs ys x)

-- The last of a list is there; what was there stays.
pub contains-last : (xs : List ℕ) (x : ℕ) → contains (xs ++ x ∷ []) x ≡ true
contains-last xs x = ground (arith, contains-append xs (x ∷ []) x)

pub contains-left : (xs ys : List ℕ) (x : ℕ) → contains xs x ≡ true → contains (xs ++ ys) x ≡ true
contains-left xs ys x h = ground (arith, contains-append xs ys x)

-- What is there after one more is that one, or was there.
pub contains-snoc :
    (xs : List ℕ) (y x : ℕ) → contains (xs ++ y ∷ []) x ≡ true → (y ≡ x) ⊎ (contains xs x ≡ true)
contains-snoc xs y x h = ground (arith, contains-append xs (y ∷ []) x)

-- The elements of `us` that are not in `xs`.
pub missing : List ℕ → List ℕ → ℕ
missing [] xs = 0
missing (u ∷ us) xs = (if contains xs u then 0 else 1) + missing us xs

pub missing-le : (us xs : List ℕ) → missing us xs ≤ length us
unfolding missing
missing-le [] xs = omega arith
missing-le (u ∷ us) xs = ground (arith, missing-le us xs)

pub missing_mono :
    (us xs ys : List ℕ)
    → ((x : ℕ) → contains xs x ≡ true → contains ys x ≡ true)
    → missing us ys ≤ missing us xs
unfolding missing
missing_mono [] xs ys h = omega arith
missing_mono (u ∷ us) xs ys h = ground (arith, missing_mono us xs ys h, h u)

pub missing-snoc :
    (us xs : List ℕ) (x : ℕ)
    → contains us x ≡ true
    → contains xs x ≡ false
    → missing us (xs ++ x ∷ []) < missing us xs
unfolding missing
missing-snoc [] xs x m n = cc
missing-snoc (u ∷ us) xs x m n = elim (Bool-cases (u == x)) [
  | inl here ↦
      ground
        (arith, missing_mono us xs (xs ++ x ∷ []) (contains-left xs (x ∷ [])), contains-last xs x)
  | inr there ↦ ground (arith, missing-snoc us xs x, contains-append xs (x ∷ []) u)
]

abbrev pub is_unique : List ℕ → Bool
is_unique [] = true
is_unique (x ∷ xs) = not (contains xs x) && is_unique xs

pub is_unique-snoc :
    (xs : List ℕ) (x : ℕ)
    → is_unique xs ≡ true
    → contains xs x ≡ false
    → is_unique (xs ++ x ∷ []) ≡ true
is_unique-snoc [] x u n = refl
is_unique-snoc (y ∷ xs) x u n = ground (arith, is_unique-snoc xs x, contains-append xs (x ∷ []) y)
