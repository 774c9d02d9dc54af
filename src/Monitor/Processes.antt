-- ===== src/Monitor/Processes.antt =====
-- The list of processes: which ones are shown.
use mathlib.Core.List.{Perm, append-nil}
use vxapigateway.Prelude.{
  ℕ, zero, suc, ◌≤◌, ◌≡◌, ◌≢◌, refl, sym, ap, subst, inl, inr, Bool, true, false, List, [], ◌∷◌,
  ◌++◌, length, All, arith, ltb, Bool-cases,
}
use vxapigateway.Monitor.{Floats, ProcessInfo, uses_more, take, top_processes}

abbrev drop {ℓ} : {A : Type ℓ} → ℕ → List A → List A
drop zero xs = xs
drop (suc n) [] = []
drop (suc n) (x ∷ xs) = drop n xs

take-drop {ℓ} : {A : Type ℓ} (n : ℕ) (xs : List A) → take n xs ++ drop n xs ≡ xs
take-drop zero xs = refl
take-drop (suc n) [] = refl
take-drop (suc n) (x ∷ xs) = ap (λ ys. x ∷ ys) (take-drop n xs)

length-take {ℓ} : {A : Type ℓ} (n : ℕ) (xs : List A) → n ≤ length xs → length (take n xs) ≡ n
length-take zero xs h = refl
length-take (suc n) [] h = elim h [ ]
length-take (suc n) (x ∷ xs) h = ap suc (length-take n xs (omega arith))

module _ {A : Type 0} where
  -- A strict weak order, which package sort asks for.
  pub record IsLess (less : A → A → Bool) : Type 0 where
    pub asymmetric : (a b : A) → less a b ≡ true → less b a ≡ false
    pub transitive : (a b c : A) → less a b ≡ false → less b c ≡ false → less a c ≡ false

  -- None is less than one in front of it.
  abbrev pub IsSorted : (A → A → Bool) → List A → Type 0
  IsSorted less [] = Unit {0}
  IsSorted less (x ∷ xs) = All (λ y. less y x ≡ false) xs × IsSorted less xs

  -- What the documentation of sort.Slice says, whatever the order.
  abbrev pub IsSorting : ((A → A → Bool) → List A → List A) → Type 0
  IsSorting sort =
      (less : A → A → Bool)
      → IsLess less
      → (xs : List A) → Perm (sort less xs) xs × IsSorted less (sort less xs)

module _ (floats : Floats) where
  -- No process has a greater CPU time than one in front of it.
  abbrev pub IsDescending : List (ProcessInfo floats) → Type 0
  IsDescending [] = Unit {0}
  IsDescending (x ∷ xs) =
      All (λ y. floats.greater y.cpu_percent x.cpu_percent ≡ false) xs × IsDescending xs

  -- `greater` orders the numbers, as it does where none of them is NaN.
  pub record GreaterIsOrder : Type 0 where
    pub asymmetric : (a b : floats.Float) → floats.greater a b ≡ true → floats.greater b a ≡ false
    pub transitive :
        (a b c : floats.Float)
        → floats.greater a b ≡ false
        → floats.greater b c ≡ false
        → floats.greater a c ≡ false

  All-front :
      (P : ProcessInfo floats → Type 0) (xs ys : List (ProcessInfo floats))
      → All P (xs ++ ys)
      → All P xs × All P ys
  All-front P [] ys h = (tt, h)
  All-front P (x ∷ xs) ys (h, hs) = let (front, back) = All-front P xs ys hs in ((h, front), back)

  IsDescending-split :
      (xs ys : List (ProcessInfo floats))
      → IsDescending (xs ++ ys)
      → IsDescending xs
        × All (λ x. All (λ y. floats.greater y.cpu_percent x.cpu_percent ≡ false) ys) xs
  IsDescending-split [] ys h = (tt, tt)
  IsDescending-split (x ∷ xs) ys (h, hs) =
      let (front, back) =
        All-front (λ y. floats.greater y.cpu_percent x.cpu_percent ≡ false) xs ys h in
      let (rest, above) = IsDescending-split xs ys hs in ((front, rest), (back, above))

  descending : (xs : List (ProcessInfo floats)) → IsSorted (uses_more floats) xs → IsDescending xs
  descending [] h = tt
  descending (x ∷ xs) (front, h) = (front, descending xs h)

  uses_more-IsLess : GreaterIsOrder → IsLess (uses_more floats)
  uses_more-IsLess o = record {
    asymmetric = λ a b. o.asymmetric a.cpu_percent b.cpu_percent;
    transitive = λ a b c. o.transitive a.cpu_percent b.cpu_percent c.cpu_percent;
  }

  -- The monitor shows all processes, or twenty of more, in descending order of their CPU time: none
  -- that it leaves out has a greater one than one that it shows. The function `sort` does what
  -- sort.Slice documents for every order, and no CPU time is NaN, so that `greater` is an order.
  pub top_processes_lem :
      (sort : (ProcessInfo floats → ProcessInfo floats → Bool)
        → List (ProcessInfo floats)
        → List (ProcessInfo floats))
      (infos : List (ProcessInfo floats))
      → GreaterIsOrder
      → IsSorting sort
      → let shown = top_processes floats sort infos in
        (left_out : List (ProcessInfo floats)) × Perm (shown ++ left_out) infos
        × IsDescending shown
        × All (λ x. All (λ y. floats.greater y.cpu_percent x.cpu_percent ≡ false) left_out) shown
        × (length shown ≤ 20)
        × (left_out ≢ [] → length shown ≡ 20)
  unfolding top_processes
  top_processes_lem sort infos order sorting =
      let sorted = sort (uses_more floats) infos in
      let (perm, in_order) = sorting (uses_more floats) (uses_more-IsLess order) infos in
      let falling = descending sorted in_order in
      elim (Bool-cases (ltb 20 (length sorted))) [
        | inl more ↦
            let split = take-drop 20 sorted in
            let (front, above) =
              IsDescending-split (take 20 sorted) (drop 20 sorted)
                (subst IsDescending (sym split) falling) in
            let exact : length (take 20 sorted) ≡ 20 = length-take 20 sorted (ground arith) in
            rw (more, top_processes)
              (
                drop 20 sorted,
                subst (λ xs. Perm xs infos) (sym split) perm,
                front,
                above,
                omega (arith, exact),
                λ some_left. exact,
              )
        | inr all ↦
            let (front, above) =
              IsDescending-split sorted [] (subst IsDescending (sym (append-nil sorted)) falling) in
            rw (all, top_processes)
              (
                [],
                subst (λ xs. Perm xs infos) (sym (append-nil sorted)) perm,
                falling,
                above,
                ground arith,
                λ some_left. absurd (some_left refl),
              )
      ]
