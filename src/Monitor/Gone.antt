-- ===== src/Monitor/Gone.antt =====
-- When the metrics cannot be made: a process without memory figures ends the request in a panic.
use vxapigateway.Prelude.{
  ℕ, zero, suc, ◌≡◌, ◌↔◌, refl, ap, ◌∙◌, inl, inr, Bool, true, List, [], ◌∷◌, none, some, get_elem?,
  arith, Bool-cases, Option-cases,
}
use vxapigateway.Prelude.Word.{slt}
use vxapigateway.Monitor.{Floats, Process, ProcessInfo, System, process_list, get_system_metrics}

module _ (floats : Floats) where
  -- A process with a positive number, whose memory figures are missing: one that has just ended, or
  -- that the gateway may not read.
  pub record IsGone (processes : List (Process floats)) : Type 0 where
    pub index : ℕ
    pub process : Process floats
    pub at : get_elem? processes index ≡ some process
    pub numbered : slt 0 process.pid ≡ true
    pub without_memory : process.rss ≡ none

  IsGone-later :
      (p : Process floats) (processes : List (Process floats))
      → IsGone processes
      → IsGone (p ∷ processes)
  IsGone-later p processes gone = record {
    index = suc gone.index;
    process = gone.process;
    at = gone.at;
    numbered = gone.numbered;
    without_memory = gone.without_memory;
  }

  process_list-IsGone :
      (processes : List (Process floats)) → process_list floats processes ≡ none → IsGone processes
  unfolding process_list
  process_list-IsGone [] h = absurd (cc h)
  process_list-IsGone (p ∷ processes) h =
      let later = process_list-IsGone processes in
      elim (Bool-cases (slt 0 p.pid)) [
        | inr other ↦ IsGone-later p processes (later (rw (process_list, other) at h))
        | inl numbered ↦ elim (Option-cases p.rss) [
          | inl missing ↦ record {
            index = 0;
            process = p;
            at = refl;
            numbered = numbered;
            without_memory = missing;
          }
          | inr (rss, found) ↦ elim (Option-cases (process_list floats processes)) [
            | inl e ↦ IsGone-later p processes (later e)
            | inr (infos, e) ↦ absurd (cc (rw (process_list, numbered, found, e) at h))
          ]
        ]
      ]

  gone-process_list :
      (processes : List (Process floats)) (i : ℕ) (q : Process floats)
      → get_elem? processes i ≡ some q
      → slt 0 q.pid ≡ true
      → q.rss ≡ none
      → process_list floats processes ≡ none
  unfolding process_list
  gone-process_list [] i q at numbered missing = absurd (cc at)
  gone-process_list (p ∷ processes) zero q at numbered missing =
      let same : p ≡ q = ground arith in
      let here : slt 0 p.pid ≡ true = ap (λ (x : Process floats). slt 0 x.pid) same ∙ numbered in
      let lost : p.rss ≡ none = ap (λ (x : Process floats). x.rss) same ∙ missing in
      rw (process_list, here, lost) refl
  gone-process_list (p ∷ processes) (suc i) q at numbered missing =
      let rest = gone-process_list processes i q at numbered missing in
      elim (Bool-cases (slt 0 p.pid)) [
        | inr other ↦ rw (process_list, other) rest
        | inl first ↦ elim (Option-cases p.rss) [
          | inl e ↦ rw (process_list, first, e) refl
          | inr (rss, e) ↦ rw (process_list, first, e, rest) refl
        ]
      ]

  -- Collecting the metrics panics exactly if package gopsutil lists a process with a positive number
  -- whose memory figures it cannot give.
  pub get_system_metrics-none_iff :
      (sort : (ProcessInfo floats → ProcessInfo floats → Bool)
        → List (ProcessInfo floats)
        → List (ProcessInfo floats))
      (s : System floats)
      → (get_system_metrics floats sort s ≡ none)
        ↔ ((processes : List (Process floats)) × (s.processes ≡ some processes) × IsGone processes)
  unfolding get_system_metrics
  get_system_metrics-none_iff sort s = (
    λ h. elim (Option-cases s.processes) [
      | inl e ↦ absurd (cc (rw (get_system_metrics, e) at h))
      | inr (processes, e) ↦ elim (Option-cases (process_list floats processes)) [
        | inl lost ↦ (processes, e, process_list-IsGone processes lost)
        | inr (infos, made) ↦ absurd (cc (rw (get_system_metrics, e, made) at h))
      ]
    ],
    λ found.
        let gone = found.2 in
        let lost =
          gone-process_list found.0 gone.index gone.process gone.at gone.numbered
            gone.without_memory in
        rw (get_system_metrics, found.1, lost) refl,
  )
