-- ===== src/InstancePermission/Inclusion.antt =====
-- Which grants are enough for a type of permission
-- (scheduler/internal/datasource/permission.go, scheduler/internal/service/instance_permission.go).
use bdopsflow.Prelude.{
  ℕ, zero, suc, ◌≡◌, refl, sym, ap, subst, ◌∙◌, Bool, true, false, ◌||◌, ◌&&◌, List, [], ◌∷◌,
  Option, if◌then◌else◌, any, arith, Bool-cases, inl, inr, ==_iff,
}
use bdopsflow.InstancePermission.Types.{
  PermType, read, query, download, update, delete, manage, trigger, other, code, same, contains,
  including, entry_has, permission_includes, is_valid_permission_type, get_included_permissions,
  get_effective_permissions,
}

kind : ℕ → PermType
kind zero = read
kind (suc zero) = query
kind (suc (suc zero)) = download
kind (suc (suc (suc zero))) = update
kind (suc (suc (suc (suc zero)))) = delete
kind (suc (suc (suc (suc (suc zero))))) = manage
kind (suc (suc (suc (suc (suc (suc zero)))))) = trigger
kind (suc (suc (suc (suc (suc (suc (suc n))))))) = other n

kind-code : (p : PermType) → kind (code p) ≡ p
unfolding kind code
kind-code read = refl
kind-code query = refl
kind-code download = refl
kind-code update = refl
kind-code delete = refl
kind-code manage = refl
kind-code trigger = refl
kind-code (other n) = refl

pub same→≡ : (p q : PermType) → same p q ≡ true → p ≡ q
unfolding same
same→≡ p q h = sym (kind-code p) ∙ ap kind ((==_iff (code p) (code q)).0 h) ∙ kind-code q

pub same_refl : (p : PermType) → same p p ≡ true
unfolding same
same_refl p = ground arith

pub same_comm : (p q : PermType) → same p q ≡ same q p
unfolding same
same_comm p q = ground arith

-- One more key that is the type itself.
including-here :
    (includes : PermType → Option (List PermType)) (ks : List PermType) (p q : PermType)
    → contains (including includes ks p) q
      ≡ (contains ks q && (same q p || entry_has (includes q) p))
    → contains (including includes (q ∷ ks) p) q ≡ (same q p || entry_has (includes q) p)
unfolding including contains
including-here includes ks p q ih = ground (arith, ih, same_refl q)

-- The loop over the keys finds those keys that are the type or include it.
contains-including :
    (includes : PermType → Option (List PermType)) (keys : List PermType) (p q : PermType)
    → contains (including includes keys p) q
      ≡ (contains keys q && (same q p || entry_has (includes q) p))
unfolding including contains
contains-including includes [] p q = refl
contains-including includes (k ∷ ks) p q = elim (Bool-cases (same q k)) [
  | inl h ↦
      subst
        (λ x.
          contains (including includes (x ∷ ks) p) q
          ≡ (contains (x ∷ ks) q && (same q p || entry_has (includes q) p)))
        (same→≡ q k h)
        (ground
          (arith, including-here includes ks p q (contains-including includes ks p q), same_refl q))
  | inr n ↦ ground (arith, contains-including includes ks p q)
]

-- The types of the table are the valid ones.
includes_once :
    (p q : PermType)
    → (is_valid_permission_type q && (same q p || entry_has (permission_includes q) p))
      ≡ contains (get_included_permissions q) p
unfolding get_included_permissions is_valid_permission_type permission_includes entry_has contains
includes_once p read = ap (λ b. b || false) (same_comm read p)
includes_once p query = ap (λ b. b || any (same p) (read ∷ [])) (same_comm query p)
includes_once p download = ap (λ b. b || any (same p) (query ∷ read ∷ [])) (same_comm download p)
includes_once p update =
    ap (λ b. b || any (same p) (download ∷ query ∷ read ∷ [])) (same_comm update p)
includes_once p delete = ap (λ b. b || false) (same_comm delete p)
includes_once p manage =
    ap (λ b. b || any (same p) (update ∷ download ∷ query ∷ read ∷ delete ∷ []))
      (same_comm manage p)
includes_once p trigger = refl
includes_once p (other n) = refl

-- Whatever the order of the keys, a grant of type q is enough for a valid type p exactly if p is one of
-- the types that q includes.
pub get_effective_permissions-included :
    (keys : List PermType) (p q : PermType)
    → ((k : PermType) → contains keys k ≡ is_valid_permission_type k)
    → is_valid_permission_type p ≡ true
    → contains (get_effective_permissions keys p) q ≡ contains (get_included_permissions q) p
unfolding get_effective_permissions get_included_permissions
get_effective_permissions-included keys p q all valid =
    ap (λ b. contains (if b then including permission_includes keys p else p ∷ []) q) valid
    ∙ contains-including permission_includes keys p q
    ∙ ap (λ b. b && (same q p || entry_has (permission_includes q) p)) (all q)
    ∙ includes_once p q

all : (PermType → Bool) → List PermType → Bool
all f [] = true
all f (p ∷ ps) = f p && all f ps

all-contains :
    (f : PermType → Bool) (ps : List PermType) (q : PermType)
    → all f ps ≡ true
    → contains ps q ≡ true
    → f q ≡ true
unfolding all contains
all-contains f [] q h m = cc
all-contains f (p ∷ ps) q h m = elim (Bool-cases (same q p)) [
  | inl e ↦ subst (λ x. f x ≡ true) (sym (same→≡ q p e)) (ground arith)
  | inr n ↦ all-contains f ps q (ground arith) (ground arith)
]

inside : PermType → PermType → Bool
inside p q = all (contains (get_included_permissions p)) (get_included_permissions q)

closed : (p : PermType) → all (inside p) (get_included_permissions p) ≡ true
unfolding all inside get_included_permissions permission_includes contains same
closed read = refl
closed query = refl
closed download = refl
closed update = refl
closed delete = refl
closed manage = refl
closed trigger = refl
closed (other n) = refl

-- What a type includes, includes no more than that type: the table of the source is closed.
pub get_included_permissions_trans :
    (p q r : PermType)
    → contains (get_included_permissions p) q ≡ true
    → contains (get_included_permissions q) r ≡ true
    → contains (get_included_permissions p) r ≡ true
unfolding inside
get_included_permissions_trans p q r h k =
    all-contains (contains (get_included_permissions p)) (get_included_permissions q) r
      (all-contains (inside p) (get_included_permissions p) q (closed p) h) k
