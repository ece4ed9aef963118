-- ===== src/Permission/Roles/Inheritance.antt =====
-- `expandRoleInheritance` returns exactly the roles that the direct ones inherit.
use bdopsflow.Prelude.{
  ℕ, zero, suc, ◌<◌, ◌≡◌, refl, subst, ◌↔◌, Bool, true, false, List, [], ◌∷◌, ◌++◌, arith,
  if◌then◌else◌, Bool-cases, inl, inr, ◌⊎◌, length, ◌==◌,
}
use bdopsflow.Permission.{PermissionDb, get_parent_role_ids}
use bdopsflow.Permission.Roles.{contains, walk, expand_role_inheritance}
use bdopsflow.Permission.Roles.Members.{
  contains-append, contains-last, contains-left, contains-snoc, missing, missing-le, missing_mono,
  missing-snoc,
}

module _ (db : PermissionDb) where
  -- A role that the direct roles inherit: one of them, or a parent of one that they inherit.
  pub data Inherits (direct : List ℕ) : ℕ → Type 0 where
    has : {x : ℕ} → contains direct x ≡ true → Inherits direct x
    parent :
        {y x : ℕ}
        → Inherits direct y
        → contains (get_parent_role_ids db y) x ≡ true
        → Inherits direct x

  Inherits-sub :
      {xs ys : List ℕ} {x : ℕ}
      → ((z : ℕ) → contains xs z ≡ true → Inherits ys z)
      → Inherits xs x
      → Inherits ys x
  Inherits-sub h (has c) = h _ c
  Inherits-sub h (parent i c) = parent (Inherits-sub h i) c

  -- What is in the result was there before, or is inherited.
  walk_sound :
      (fuel : ℕ) (out ids : List ℕ) (x : ℕ)
      → contains (walk db fuel out ids) x ≡ true
      → (contains out x ≡ true) ⊎ Inherits ids x
  unfolding walk
  walk_sound zero out ids x h = inl h
  walk_sound (suc fuel) out [] x h = inl h
  walk_sound (suc fuel) out (id ∷ ids) x h =
      let out' : List ℕ = out ++ id ∷ [] in
      let deeper : List ℕ = walk db fuel out' (get_parent_role_ids db id) in
      rest (contains out id) refl
        (walk_sound (suc fuel) (if contains out id then out else deeper) ids x h)
        (λ d. walk_sound fuel out' (get_parent_role_ids db id) x d)
    where
      top : Inherits (id ∷ ids) id
      top = has (ground arith)

      weaken : Inherits ids x → Inherits (id ∷ ids) x
      weaken = Inherits-sub (λ z c. has (ground arith))

      fresh : (id ≡ x) ⊎ (contains out x ≡ true) → (contains out x ≡ true) ⊎ Inherits (id ∷ ids) x
      fresh (inl e) = inr (subst (Inherits (id ∷ ids)) e top)
      fresh (inr c) = inl c

      above : Inherits (get_parent_role_ids db id) x → Inherits (id ∷ ids) x
      above = Inherits-sub (λ z c. parent top c)

      deep :
          (contains (out ++ id ∷ []) x ≡ true) ⊎ Inherits (get_parent_role_ids db id) x
          → (contains out x ≡ true) ⊎ Inherits (id ∷ ids) x
      deep (inl c) = fresh (contains-snoc out id x c)
      deep (inr i) = inr (above i)

      rest :
          (b : Bool)
          → contains out id ≡ b
          → (contains
                (if b then out else walk db fuel (out ++ id ∷ []) (get_parent_role_ids db id))
                x
              ≡ true)
            ⊎ Inherits ids x
          → (contains (walk db fuel (out ++ id ∷ []) (get_parent_role_ids db id)) x ≡ true
              → (contains (out ++ id ∷ []) x ≡ true) ⊎ Inherits (get_parent_role_ids db id) x)
          → (contains out x ≡ true) ⊎ Inherits (id ∷ ids) x
      rest b e (inr i) k = inr (weaken i)
      rest true e (inl c) k = inl c
      rest false e (inl c) k = deep (k c)

  -- The parents of each role of `xs` that is not in `out` are in `ys`.
  abbrev Closed : List ℕ → List ℕ → List ℕ → Type 0
  Closed out xs ys =
      (y x : ℕ)
      → contains xs y ≡ true
      → (contains out y ≡ false)
      → contains (get_parent_role_ids db y) x ≡ true
      → contains ys x ≡ true

  abbrev Sub : List ℕ → List ℕ → Type 0
  Sub xs ys = (x : ℕ) → contains xs x ≡ true → contains ys x ≡ true

  -- What a walk with enough fuel gives: it keeps what it had, has what it was given, and has the
  -- parents of what it adds.
  record IsWalk (out ids result : List ℕ) : Type 0 where
    kept : Sub out result
    given : Sub ids result
    closed : Closed out result result

  -- The ids that can be reached lie in `us`.
  module _ (us : List ℕ)
      (us_closed : (y x : ℕ)
        → contains us y ≡ true
        → contains (get_parent_role_ids db y) x ≡ true
        → contains us x ≡ true) where
    join :
        (out ids deeper result : List ℕ) (id : ℕ)
        → contains out id ≡ false
        → IsWalk (out ++ id ∷ []) (get_parent_role_ids db id) deeper
        → IsWalk deeper ids result
        → IsWalk out (id ∷ ids) result
    join out ids deeper result id fresh d r = record {
      kept = λ x c. r.kept x (d.kept x (contains-left out (id ∷ []) x c));
      given = λ x c. first x (Bool-cases (id == x)) c;
      closed = λ y x c n p. parents_in y x c n p (Bool-cases (contains deeper y));
    }
      where
        first :
            (x : ℕ)
            → ((id == x) ≡ true) ⊎ ((id == x) ≡ false)
            → contains (id ∷ ids) x ≡ true
            → contains result x ≡ true
        first x (inl e) c = r.kept x (
            d.kept x (
              subst (λ z. contains (out ++ id ∷ []) z ≡ true) (ground arith)
                (contains-last out id)))
        first x (inr n) c = r.given x (ground arith)

        old_or_new :
            (y x : ℕ)
            → contains deeper y ≡ true
            → contains out y ≡ false
            → contains (get_parent_role_ids db y) x ≡ true
            → ((id == y) ≡ true) ⊎ ((id == y) ≡ false)
            → contains deeper x ≡ true
        old_or_new y x c n p (inl e) =
            let same : y ≡ id = ground arith in
            d.given x (subst (λ z. contains (get_parent_role_ids db z) x ≡ true) same p)
        old_or_new y x c n p (inr e) =
            d.closed y x c (ground (arith, contains-append out (id ∷ []) y)) p

        parents_in :
            (y x : ℕ)
            → contains result y ≡ true
            → contains out y ≡ false
            → contains (get_parent_role_ids db y) x ≡ true
            → (contains deeper y ≡ true) ⊎ (contains deeper y ≡ false)
            → contains result x ≡ true
        parents_in y x c n p (inr absent) = r.closed y x c absent p
        parents_in y x c n p (inl there) =
            r.kept x (old_or_new y x there n p (Bool-cases (id == y)))

    walk_complete :
        (fuel : ℕ) (out ids : List ℕ)
        → missing us out < fuel
        → Sub ids us
        → IsWalk out ids (walk db fuel out ids)
    unfolding walk
    walk_complete zero out ids lt sub = absurd (omega arith)
    walk_complete (suc fuel) out [] lt sub = record {
      kept = λ x c. c;
      given = λ x c. cc;
      closed = λ y x c n p. cc;
    }
    walk_complete (suc fuel) out (id ∷ ids) lt sub =
        let tail : Sub ids us = λ x c. sub x (ground arith) in
        let id_in : contains us id ≡ true = sub id (ground arith) in
        let deeper : List ℕ = walk db fuel (out ++ id ∷ []) (get_parent_role_ids db id) in
        elim (Bool-cases (contains out id)) [
          | inl seen ↦ rw seen (skip seen (walk_complete (suc fuel) out ids lt tail))
          | inr fresh ↦
              let d : IsWalk (out ++ id ∷ []) (get_parent_role_ids db id) deeper =
                walk_complete fuel (out ++ id ∷ []) (get_parent_role_ids db id)
                  (omega (arith, missing-snoc us out id id_in fresh))
                  (λ x c. us_closed id x id_in c) in
              rw fresh (
                join out ids deeper _ id fresh d (
                  walk_complete (suc fuel) deeper ids
                    (omega (
                      arith,
                      missing_mono us out deeper
                          (λ x c. d.kept x (contains-left out (id ∷ []) x c)),
                    ))
                    tail))
        ]
      where
        skip :
            {result : List ℕ}
            → contains out id ≡ true
            → IsWalk out ids result
            → IsWalk out (id ∷ ids) result
        skip seen w = record {
          kept = w.kept;
          given = λ x c. elim (Bool-cases (id == x)) [
            | inl e ↦ w.kept x (subst (λ z. contains out z ≡ true) (ground arith) seen)
            | inr n ↦ w.given x (ground arith)
          ];
          closed = w.closed;
        }

  Inherits-closed :
      (direct result : List ℕ) {x : ℕ}
      → IsWalk [] direct result
      → Inherits direct x
      → contains result x ≡ true
  Inherits-closed direct result w (has c) = w.given _ c
  Inherits-closed direct result w (parent {y} {x} i c) =
      w.closed y x (Inherits-closed direct result w i) refl c

  -- With more fuel than there are roles in `us`, where `us` has the direct roles and all parents of
  -- its roles, the result has exactly the roles that the direct ones inherit, cycles or not.
  pub expand_role_inheritance-Inherits :
      (us direct : List ℕ) (fuel x : ℕ)
      → ((y z : ℕ)
          → contains us y ≡ true
          → contains (get_parent_role_ids db y) z ≡ true
          → contains us z ≡ true)
      → ((y : ℕ) → contains direct y ≡ true → contains us y ≡ true)
      → length us < fuel
      → (contains (expand_role_inheritance db fuel direct) x ≡ true) ↔ Inherits direct x
  unfolding expand_role_inheritance
  expand_role_inheritance-Inherits us direct fuel x us_closed sub lt = (
    λ h. elim (walk_sound fuel [] direct x h) [ inl e ↦ cc | inr i ↦ i ],
    λ i.
        Inherits-closed direct (walk db fuel [] direct)
          (walk_complete us us_closed fuel [] direct (omega (arith, missing-le us [])) sub) i,
  )
