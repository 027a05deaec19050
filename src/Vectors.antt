-- ===== src/Vectors.antt =====
-- The interrupt vectors of the processors: the tables of Kernel/Source/CPU/PerCpu.c, the dispatch of
-- Kernel/Source/CPU/Interrupt.c, and the distribution of IRQs, Kernel/Source/Intmgmt/IRQAldist.c.
pub mod Offer
use ych.Prelude.{
  ℕ, zero, suc, ◌+◌, ◌-◌, ◌^◌, Bool, true, false, ◌||◌, ◌&&◌, not, leb, ltb, ◌==◌, if◌then◌else◌,
  Option, none, some, List, [], ◌∷◌, ◌++◌,
}

-- `PerCpuInterrupt`; a handler or a device of 0 is `NULLPTR`.
pub record PerCpuInterrupt : Type 0 where
  pub handler : ℕ
  pub hw_device : ℕ
  pub irq : ℕ
  pub vector : ℕ

-- `sg_PerCpu`: the table of each processor. `cpu_ids` and `active_processor_count` are those of
-- `SmpInfo`, and `idx` is the static variable of `AldistOfferSetupForIRQ`.
pub record Vectors : Type 0 where
  pub interrupt : ℕ → ℕ → PerCpuInterrupt
  pub cpu_ids : ℕ → ℕ
  pub active_processor_count : ℕ
  pub idx : ℕ

unfoldable pub put_interrupt : Vectors → ℕ → ℕ → PerCpuInterrupt → Vectors
put_interrupt s cpu slot info = record s {
  interrupt = λ c i. if c == cpu && i == slot then info else s.interrupt c i;
}

unfoldable pub set_interrupt : Vectors → ℕ → PerCpuInterrupt → Vectors
set_interrupt s cpu info = put_interrupt s cpu info.vector info

unfoldable pub set_hardware_interrupt : Vectors → ℕ → ℕ → ℕ → ℕ → ℕ → Vectors
set_hardware_interrupt s cpu vector device irq handler =
    set_interrupt s cpu
      (record { handler = handler; hw_device = device; irq = irq; vector = vector })

unfoldable pub set_exception_interrupt : Vectors → ℕ → ℕ → ℕ → Vectors
set_exception_interrupt s cpu vector handler =
    set_interrupt s cpu
      (record { handler = handler; hw_device = 0; irq = 2 ^ 32 - 1; vector = vector })

unfoldable pub set_interrupt_handler : Vectors → ℕ → ℕ → ℕ → Vectors
set_interrupt_handler s cpu vector handler =
    put_interrupt s cpu vector (record (s.interrupt cpu vector) { handler = handler })

unfoldable pub unset_interrupt : Vectors → ℕ → ℕ → Vectors
unset_interrupt s cpu vector =
    put_interrupt s cpu vector (record { handler = 0; hw_device = 0; irq = 2 ^ 32 - 1; vector = 0 })

-- The loop over a processor's table: the first entry from `i` on that is empty.
unfoldable pub free_vector : ℕ → (ℕ → PerCpuInterrupt) → ℕ → Option ℕ
free_vector zero table i = none
free_vector (suc n) table i =
    let rest = free_vector n table (suc i) in if (table i).vector == 0 then some i else rest

-- `Idx++` and its return to 0
abbrev pub next_processor : Vectors → Vectors
next_processor s = record s {
  idx = if leb s.active_processor_count (s.idx + 1) then 0 else s.idx + 1;
}

-- The round of the label `Retry` with `retries` left: the processor and its vector, or `none` for the
-- meltdown.
unfoldable pub offer_from : ℕ → Vectors → Vectors × Option (ℕ × ℕ)
offer_from zero s = elim (free_vector 224 (s.interrupt (s.cpu_ids s.idx)) 32) [
  | none ↦ (next_processor s, none)
  | some i ↦ (next_processor s, some (s.cpu_ids s.idx, i))
]
offer_from (suc retries) s = elim (free_vector 224 (s.interrupt (s.cpu_ids s.idx)) 32) [
  | none ↦ offer_from retries (next_processor s)
  | some i ↦ (next_processor s, some (s.cpu_ids s.idx, i))
]

-- `AldistOfferSetupForIRQ`: as many retries as there are processors.
unfoldable pub offer_setup_for_irq : Vectors → Vectors × Option (ℕ × ℕ)
offer_setup_for_irq s = offer_from s.active_processor_count s

-- What `KrDispatchInterrupt` does, in order.
pub data Dispatch : Type 0 where
  handle : ℕ → Dispatch
  halt : Dispatch
  end_of_interrupt : Dispatch

-- `KrUnhandledInterrupt`
unfoldable pub unhandled_interrupt : ℕ → List Dispatch
unhandled_interrupt n = if ltb n 32 || n == 3 then Dispatch.halt ∷ [] else []

-- The end of the interrupt for an IRQ that is not the spurious one.
unfoldable pub end_dispatch : ℕ → List Dispatch
end_dispatch n = if leb 32 n && not (n == 0xFF) then Dispatch.end_of_interrupt ∷ [] else []

unfoldable pub dispatch_interrupt : Vectors → ℕ → ℕ → List Dispatch
dispatch_interrupt s cpu n =
    let handler = (s.interrupt cpu n).handler in
    let handled = if handler == 0 then unhandled_interrupt n else Dispatch.handle handler ∷ [] in
    (if ltb n 0x100 then handled else []) ++ end_dispatch n
