-- ===== src/Tests/Machines.antt =====
-- code/machine/translate.cc at a machine with two mapped pages.
use nachos_system_design.Base.{
  ℕ, ◌≡◌, refl, true, false, some, List, [], ◌∷◌, arith, inr, Run, ok, Returns, length-replicate,
}
use nachos_system_design.Machine.{Machine, TranslationEntry, ExceptionType, new, memory_size}
use nachos_system_design.Machine.Translate.{translate}
use nachos_system_design.Machine.Translate.Laws.{IsSize, IsMapped, Outcome, translate-Outcome}
use nachos_system_design.Machine.Memory.{read_mem, write_mem}
use nachos_system_design.Machine.Memory.Laws.{loaded}
use nachos_system_design.Machine.Memory.RoundTrip.{IsPaged, write_mem-read_mem}

abbrev page : ℕ → TranslationEntry
page frame = record {
  virtual_page = 0;
  physical_page = frame;
  valid = true;
  read_only = false;
  used = false;
  dirty = false;
}

abbrev table : List TranslationEntry
table = page 7 ∷ page 3 ∷ []

abbrev sample : Machine
sample = record new { page_table = some table; page_table_size = 2 }

-- A kernel that leaves the machine as it is.
abbrev handler : ExceptionType → Machine → Run Machine
handler which m = ok m

sample-IsPaged : IsPaged sample table
unfolding new
sample-IsPaged = record {
  no_tlb = refl;
  has_table = refl;
  covers = omega arith;
  memory = length-replicate {A = ℕ} memory_size 0;
}

word : IsSize 4
word = inr (inr refl)

sample-IsMapped : IsMapped table 2 132 4 true
sample-IsMapped = record {
  aligned = refl;
  inside = omega arith;
  present = refl;
  allowed = refl;
  framed = omega arith;
}

translate-Outcome_example : Returns (translate sample 132 4 true) (Outcome sample table 132 4 true)
translate-Outcome_example =
    translate-Outcome sample table 132 4 true (sample-IsPaged.no_tlb) refl (omega arith) word

write_mem-read_mem_example :
    Returns
      (write_mem handler sample 132 4 0xdeadbeef)
      λ w. (w.1 ≡ true) × Returns (read_mem handler w.0 132 4) λ r. r.1 ≡ some (loaded 4 0xdeadbeef)
write_mem-read_mem_example =
    write_mem-read_mem handler sample table 132 4 sample-IsPaged word 0xdeadbeef (omega arith)
      sample-IsMapped
