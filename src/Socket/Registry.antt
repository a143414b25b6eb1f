-- ===== src/Socket/Registry.antt =====
-- The dictionaries of operations and of sources against the tasks that they list.
use django_graphex.Common.{
  ℕ, suc, ◌≤◌, Bool, true, false, ◌≡◌, refl, sym, ◌↔◌, ◌⊎◌, inl, inr, Option, none, some, [], ◌∷◌,
  length, ◌==◌, ==_iff, Bool-cases, arith,
}
use django_graphex.Socket.Json.{Key, key_eq, key_eq_refl, key_eq→≡}
use django_graphex.Socket.State.{Task, Registry, find, put, erase, set}

pub key-cases : (k j : Key) → (k ≡ j) ⊎ (key_eq k j ≡ false)
key-cases k j = elim (Bool-cases (key_eq k j)) [ inl e ↦ inl (key_eq→≡ k j e) | inr e ↦ inr e ]

key_eq-false : (k j : Key) → key_eq k j ≡ false → key_eq j k ≡ false
key_eq-false k j e = elim (Bool-cases (key_eq j k)) [
  | inl f ↦ absurd (let same = key_eq→≡ j k f in ground (arith, key_eq_refl j))
  | inr f ↦ f
]

pub find-put_same : (k : Key) (t : ℕ) (d : Registry) → find k (put k t d) ≡ some t
find-put_same k t [] = ground (arith, key_eq_refl k)
find-put_same k t ((j, u) ∷ d) = ground (arith, find-put_same k t d)

pub find-put_other :
    (k j : Key) (t : ℕ) (d : Registry) → key_eq k j ≡ false → find j (put k t d) ≡ find j d
find-put_other k j t [] e = rw e refl
find-put_other k j t ((i, u) ∷ d) e = elim (Bool-cases (key_eq i k)) [
  | inl f ↦ let same = key_eq→≡ i k f in ground (arith, find-put_other k j t d e)
  | inr f ↦ ground (arith, find-put_other k j t d e)
]

pub find-erase_same : (k : Key) (d : Registry) → find k (erase k d) ≡ none
find-erase_same k [] = refl
find-erase_same k ((j, u) ∷ d) = ground (arith, find-erase_same k d)

pub find-erase_other :
    (k j : Key) (d : Registry) → key_eq k j ≡ false → find j (erase k d) ≡ find j d
find-erase_other k j [] e = refl
find-erase_other k j ((i, u) ∷ d) e = elim (Bool-cases (key_eq i k)) [
  | inl f ↦ let same = key_eq→≡ i k f in ground (arith, find-erase_other k j d e)
  | inr f ↦ ground (arith, find-erase_other k j d e)
]

pub length-put :
    (k : Key) (t : ℕ) (d : Registry) → find k d ≡ none → length (put k t d) ≡ suc (length d)
length-put k t [] e = refl
length-put k t ((j, u) ∷ d) e = ground (arith, length-put k t d)

pub length-erase : (k : Key) (d : Registry) → length (erase k d) ≤ length d
length-erase k [] = omega arith
length-erase k ((j, u) ∷ d) = ground (arith, length-erase k d)

-- A dictionary in which no key is found is empty.
pub find-all_none : (d : Registry) → ((k : Key) → find k d ≡ none) → d ≡ []
find-all_none [] h = refl
find-all_none ((j, u) ∷ d) h = absurd (ground (arith, h j, key_eq_refl j))

-- The dictionary lists exactly the tasks that `P` holds of, under their keys.
abbrev pub Agrees : (Key → Option Task → Bool) → Registry → (ℕ → Option Task) → Type 0
Agrees P d tasks = (k : Key) (t : ℕ) → (P k (tasks t) ≡ true) ↔ (find k d ≡ some t)

module _ (P : Key → Option Task → Bool) (d : Registry) (tasks : ℕ → Option Task) where
  -- A task that `P` holds of at one key only, and that is alone there, is taken out.
  pub Agrees-erase :
      (k : Key) (t : ℕ) (v : Option Task)
      → Agrees P d tasks
      → ((j : Key) → P j v ≡ false)
      → ((j : Key) → P j (tasks t) ≡ true → k ≡ j)
      → ((n : ℕ) → P k (tasks n) ≡ true → n ≡ t)
      → Agrees P (erase k d) (set t v tasks)
  Agrees-erase k t v h gone own alone j n = elim (key-cases k j) [
    | inl same ↦
        let e = find-erase_same k d in
        rw (sym same) (elim (Bool-cases (n == t)) [
          | inl f ↦ ground (arith, gone k, e)
          | inr f ↦ ground (arith, alone n, e)
        ])
    | inr other ↦
        let e = find-erase_other k j d other in
        elim (Bool-cases (n == t)) [
          | inl f ↦ ground (arith, gone j, own j, e, h j t, key_eq_refl k, ==_iff n t)
          | inr f ↦ ground (arith, h j n, e)
        ]
  ]

  -- A task changes in nothing that `P` reads.
  pub Agrees-same :
      (t : ℕ) (v : Option Task)
      → Agrees P d tasks
      → ((j : Key) → P j v ≡ P j (tasks t))
      → Agrees P d (set t v tasks)
  Agrees-same t v h same j n = elim (Bool-cases (n == t)) [
    | inl f ↦ ground (arith, h j t, same j, ==_iff n t)
    | inr f ↦ ground (arith, h j n)
  ]

  -- A task that `P` held of nowhere is entered at a key.
  pub Agrees-put :
      (k : Key) (t : ℕ) (v : Option Task)
      → Agrees P d tasks
      → P k v ≡ true
      → ((j : Key) → P j v ≡ true → k ≡ j)
      → ((j : Key) → P j (tasks t) ≡ false)
      → ((n : ℕ) → P k (tasks n) ≡ false)
      → Agrees P (put k t d) (set t v tasks)
  Agrees-put k t v h there own before free j n = elim (key-cases k j) [
    | inl same ↦
        let e = find-put_same k t d in
        rw (sym same) (elim (Bool-cases (n == t)) [
          | inl f ↦ ground (arith, e, ==_iff n t)
          | inr f ↦ ground (arith, free n, e, ==_iff n t)
        ])
    | inr other ↦
        let e = find-put_other k j t d other in
        elim (Bool-cases (n == t)) [
          | inl f ↦ ground (arith, own j, before j, e, h j t, key_eq_refl k, ==_iff n t)
          | inr f ↦ ground (arith, h j n, e)
        ]
  ]
