-- ===== src/Monitor/Tests.antt =====
-- The theorems about the monitor at concrete processes.
use mathlib.Core.List.{Perm}
use mathlib.Core.List.Perm
use vxapigateway.Prelude.{
  ℕ, zero, suc, ◌≤◌, ◌≡◌, ◌≢◌, ◌↔◌, false, Bool, List, [], ◌∷◌, ◌++◌, none, some, length, All,
  arith, ltb, Bool-cases, if◌then◌else◌, inl, inr,
}
use vxapigateway.Prelude.Bytes.{codes}
use vxapigateway.Monitor.{Floats, Process, ProcessInfo, System, top_processes, get_system_metrics}
use vxapigateway.Monitor.Processes.{
  IsDescending, IsLess, IsSorted, IsSorting, GreaterIsOrder, top_processes_lem,
}
use vxapigateway.Monitor.Gone.{IsGone, get_system_metrics-none_iff}

-- Whole percentages.
abbrev floats : Floats
floats = record { Float = ℕ; zero_float = 0; greater = λ a b. ltb b a; fraction = λ a. 0 }

abbrev Info : Type 0
Info = ProcessInfo floats

-- An insertion sort.
abbrev insert : (Info → Info → Bool) → Info → List Info → List Info
insert less x [] = x ∷ []
insert less x (y ∷ ys) = if less y x then y ∷ insert less x ys else x ∷ y ∷ ys

abbrev sort : (Info → Info → Bool) → List Info → List Info
sort less [] = []
sort less (x ∷ xs) = insert less x (sort less xs)

module _ (less : Info → Info → Bool) (order : IsLess less) where
  insert-perm : (x : Info) (xs : List Info) → Perm (insert less x xs) (x ∷ xs)
  insert-perm x [] = Perm.refl _
  insert-perm x (y ∷ ys) = elim (Bool-cases (less y x)) [
    | inl more ↦ rw more (Perm.trans (Perm.cons y (insert-perm x ys)) (Perm.swap x y ys))
    | inr other ↦ rw other (Perm.refl _)
  ]

  sort-perm : (xs : List Info) → Perm (sort less xs) xs
  sort-perm [] = Perm.refl _
  sort-perm (x ∷ xs) = Perm.trans (insert-perm x (sort less xs)) (Perm.cons x (sort-perm xs))

  All-insert :
      (z x : Info) (xs : List Info)
      → less x z ≡ false
      → All (λ y. less y z ≡ false) xs
      → All (λ y. less y z ≡ false) (insert less x xs)
  All-insert z x [] h k = (h, tt)
  All-insert z x (y ∷ ys) h (k, ks) = elim (Bool-cases (less y x)) [
    | inl more ↦ rw more (k, All-insert z x ys h ks)
    | inr other ↦ rw other (h, (k, ks))
  ]

  below :
      (x y : Info) (ys : List Info)
      → less y x ≡ false
      → All (λ z. less z y ≡ false) ys
      → All (λ z. less z x ≡ false) ys
  below x y [] h k = tt
  below x y (z ∷ ys) h (k, ks) = (order.transitive z y x k h, below x y ys h ks)

  insert-IsSorted :
      (x : Info) (xs : List Info) → IsSorted less xs → IsSorted less (insert less x xs)
  insert-IsSorted x [] h = (tt, tt)
  insert-IsSorted x (y ∷ ys) (front, h) = elim (Bool-cases (less y x)) [
    | inl more ↦
        rw more (All-insert y x ys (order.asymmetric y x more) front, insert-IsSorted x ys h)
    | inr other ↦ rw other ((other, below x y ys other front), (front, h))
  ]

  sort-IsSorted : (xs : List Info) → IsSorted less (sort less xs)
  sort-IsSorted [] = tt
  sort-IsSorted (x ∷ xs) = insert-IsSorted x (sort less xs) (sort-IsSorted xs)

sort-IsSorting : IsSorting sort
sort-IsSorting less order xs = (sort-perm less order xs, sort-IsSorted less order xs)

floats-GreaterIsOrder : GreaterIsOrder floats
floats-GreaterIsOrder = record {
  asymmetric = λ a b h. ground arith;
  transitive = λ a b c h k. ground arith;
}

abbrev info : ℕ → Info
info percent = record {
  pid = 1;
  name = codes "a";
  cpu_percent = percent;
  memory_percent = 0;
  memory_rss = 0;
  status = [];
  create_time = 0;
  cmdline = [];
}

-- Processes that use less and less, from the number on.
abbrev infos : ℕ → List Info
infos zero = info 0 ∷ []
infos (suc n) = info n ∷ infos n

top_processes_lem_example :
    let shown = top_processes floats sort (info 3 ∷ infos 22) in
    (left_out : List Info) × Perm (shown ++ left_out) (info 3 ∷ infos 22)
    × IsDescending floats shown
    × All (λ x. All (λ y. floats.greater y.cpu_percent x.cpu_percent ≡ false) left_out) shown
    × (length shown ≤ 20)
    × (left_out ≢ [] → length shown ≡ 20)
top_processes_lem_example =
    top_processes_lem floats sort (info 3 ∷ infos 22) floats-GreaterIsOrder sort-IsSorting

-- A process that ends while the metrics are collected.
abbrev system : System floats
system = record {
  now = 1;
  cpu_percent = none;
  core_percent = [];
  cpu_info = none;
  num_cpu = 4;
  later_percent = none;
  virtual_memory = none;
  swap_memory = none;
  processes = some (
      record {
        pid = 7;
        name = [];
        cpu_percent = 0;
        memory_percent = 0;
        rss = none;
        status = [];
        create_time = 0;
        cmdline = [];
      }
      ∷ []);
  host_info = none;
}

get_system_metrics-none_iff_example : (get_system_metrics floats sort system ≡ none) ↔ (
    (processes : List (Process floats)) × (system.processes ≡ some processes)
    × IsGone floats processes)
get_system_metrics-none_iff_example = get_system_metrics-none_iff floats sort system
