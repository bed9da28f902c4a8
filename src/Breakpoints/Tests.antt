-- ===== src/Breakpoints/Tests.antt =====
-- A breakpoint in a process whose bytes are the low bytes of their addresses.
use upx_killer.Common.{
  ℕ, ◌%◌, ◌≡◌, refl, arith, true, false, none, some, [], ◌∷◌, ◌==◌, if◌then◌else◌,
}
use upx_killer.Breakpoints.{Debuggee, Calls, trap, find_breakpoint, install, restore, back, destroy}
use upx_killer.Breakpoints.Memory.{IsOverlay, install-IsOverlay, restore-IsOverlay}
use upx_killer.Breakpoints.Undo.{Succeeds, install-restore, destroy-restores, install-unflushed}

abbrev code_byte : ℕ → ℕ
code_byte a = a % 256

abbrev process : Debuggee
process = record { memory = code_byte; breakpoints = []; native_error = 0 }

abbrev working : Calls
working = record { reads = true; writes = true; flushes = true; last_error = 0 }

abbrev unflushed : Calls
unflushed = record { reads = true; writes = true; flushes = false; last_error = 5 }

working-Succeeds : Succeeds working
working-Succeeds = record { reads = refl; writes = refl; flushes = refl }

process-IsOverlay : IsOverlay code_byte process
unfolding find_breakpoint
process-IsOverlay = record {
  distinct = tt;
  plain = λ a e. refl;
  saved = λ a b e. absurd (ground arith);
}

nothing_at : find_breakpoint 4096 process.breakpoints ≡ none
unfolding find_breakpoint
nothing_at = refl

trapped-IsOverlay : IsOverlay code_byte (install working 4096 1 process).1
trapped-IsOverlay = install-IsOverlay code_byte working 4096 1 process refl process-IsOverlay

install-IsOverlay_example : IsOverlay code_byte (install working 4096 1 process).1
install-IsOverlay_example =
    install-IsOverlay code_byte working 4096 1 process refl process-IsOverlay

restore-IsOverlay_example :
    IsOverlay code_byte (restore unflushed 4096 (install working 4096 1 process).1).1
restore-IsOverlay_example =
    restore-IsOverlay code_byte unflushed 4096 (install working 4096 1 process).1 trapped-IsOverlay

install-restore_example :
    ((install working 4096 1 process).0 ≡ true)
    × ((restore working 4096 (install working 4096 1 process).1).0 ≡ true)
    × ((a : ℕ) → (restore working 4096 (install working 4096 1 process).1).1.memory a ≡ code_byte a)
    × ((restore working 4096 (install working 4096 1 process).1).1.breakpoints ≡ [])
install-restore_example =
    install-restore working working 4096 1 process working-Succeeds working-Succeeds nothing_at

-- The process with a trap at 4096.
abbrev stopped : Debuggee
stopped = record {
  memory = λ a. if a == 4096 then trap else code_byte a;
  breakpoints = record { address = 4096; id = 1; original = 0 } ∷ [];
  native_error = 0;
}

stopped-IsOverlay : IsOverlay code_byte stopped
unfolding find_breakpoint
stopped-IsOverlay = record {
  distinct = (refl, tt);
  plain = λ a e. ground arith;
  saved = λ a b e. ground arith;
}

destroy-restores_example :
    ((a : ℕ) → (destroy (λ n. working) 1 stopped).memory a ≡ code_byte a)
    × (back (destroy (λ n. working) 1 stopped).breakpoints ≡ none)
destroy-restores_example =
    destroy-restores code_byte (λ n. working) 1 stopped (λ n. working-Succeeds) refl
      stopped-IsOverlay

install-unflushed_example :
    ((install unflushed 4096 1 process).0 ≡ false)
    × ((restore working 4096 (install unflushed 4096 1 process).1).0 ≡ true)
    × ((restore working 4096 (install unflushed 4096 1 process).1).1.memory 4096 ≡ trap)
    × (find_breakpoint 4096
          (install working 4096 1 (install unflushed 4096 1 process).1).1.breakpoints
        ≡ some (record { address = 4096; id = 1; original = trap }))
install-unflushed_example =
    install-unflushed unflushed working working 4096 1 process refl refl refl nothing_at
      working-Succeeds
