-- ===== src/Election/Texts.antt =====
-- The values at the leader key: what a node writes is read back, and names one node.
use bdopsflow.Prelude.{
  ℕ, ◌≡◌, refl, ap, sym, ◌∙◌, ◌≢◌, Bool, true, false, [], ◌∷◌, ◌++◌, arith, Bool-cases, inl, inr,
}
use bdopsflow.Election.{Bytes, sep, bytes_eq, has_prefix, value_for, is_holder, split_value}

-- A text without the separator.
abbrev pub IsPlain : Bytes → Type 0
IsPlain [] = Unit {0}
IsPlain (c ∷ s) = (c ≢ sep) × IsPlain s

-- A node id without `|` and the address come back from the value that the node writes.
pub split_value-value_for :
    (node_id addr : Bytes)
    → IsPlain node_id
    → split_value (value_for node_id addr) ≡ (node_id, addr)
unfolding split_value value_for
split_value-value_for [] [] p = refl
split_value-value_for [] (c ∷ addr) p = refl
split_value-value_for (x ∷ id) [] (n, p) = ground (arith, split_value-value_for id [] p)
split_value-value_for (x ∷ id) (c ∷ addr) (n, p) =
    ground (arith, split_value-value_for id (c ∷ addr) p)

bytes_eq_self : (s : Bytes) → bytes_eq s s ≡ true
bytes_eq_self [] = refl
bytes_eq_self (c ∷ s) = ground (arith, bytes_eq_self s)

abbrev pub is_nil : Bytes → Bool
is_nil [] = true
is_nil (c ∷ s) = false

pub bytes_eq→eq : (s t : Bytes) → bytes_eq s t ≡ true → s ≡ t
bytes_eq→eq [] [] h = refl
bytes_eq→eq [] (y ∷ t) h = cc
bytes_eq→eq (x ∷ s) [] h = cc
bytes_eq→eq (x ∷ s) (y ∷ t) h = ground (arith, bytes_eq→eq s t)

bytes_eq-longer : (s t : Bytes) (c : ℕ) → bytes_eq (s ++ c ∷ t) s ≡ false
bytes_eq-longer [] t c = refl
bytes_eq-longer (x ∷ s) t c = ground (arith, bytes_eq-longer s t c)

-- The value of a node is its bare id exactly if it has no address.
pub bytes_eq-value_for : (id addr : Bytes) → bytes_eq (value_for id addr) id ≡ is_nil addr
unfolding value_for
bytes_eq-value_for id [] = bytes_eq_self id
bytes_eq-value_for id (c ∷ addr) = bytes_eq-longer id (c ∷ addr) sep

has_prefix-append : (s t : Bytes) → has_prefix (s ++ sep ∷ t) (s ++ sep ∷ []) ≡ true
has_prefix-append [] t = refl
has_prefix-append (c ∷ s) t = ground (arith, has_prefix-append s t)

-- A node is the holder of the value that it writes.
pub is_holder-value_for : (node_id addr : Bytes) → is_holder node_id (value_for node_id addr) ≡ true
unfolding is_holder value_for
is_holder-value_for id [] = ground (arith, bytes_eq_self id)
is_holder-value_for id (c ∷ addr) = ground (arith, has_prefix-append id (c ∷ addr))

prefix-split :
    (id v : Bytes) → IsPlain id → has_prefix v (id ++ sep ∷ []) ≡ true → (split_value v).0 ≡ id
unfolding split_value
prefix-split [] [] p h = cc
prefix-split [] (y ∷ v) p h = ground arith
prefix-split (x ∷ id) [] p h = cc
prefix-split (x ∷ id) (y ∷ v) (n, p) h = ground (arith, prefix-split id v p)

-- The holder of a value is the text before its first `|`.
pub is_holder-split : (id v : Bytes) → IsPlain id → is_holder id v ≡ true → (split_value v).0 ≡ id
unfolding is_holder value_for
is_holder-split id v p h = elim (Bool-cases (bytes_eq v id)) [
  | inl same ↦
      rw (bytes_eq→eq v id same) (ap (λ (q : Bytes × Bytes). q.0) (split_value-value_for id [] p))
  | inr other ↦ prefix-split id v p (rw other at h)
]

-- Two nodes whose ids have no `|` are never both the holder of one value.
pub is_holder_unique :
    (a b v : Bytes) → IsPlain a → IsPlain b → is_holder a v ≡ true → is_holder b v ≡ true → a ≡ b
is_holder_unique a b v pa pb ha hb = sym (is_holder-split a v pa ha) ∙ is_holder-split b v pb hb
