-- ===== src/Breakpoints.antt =====
-- upx-killer-engine/Infrastructure/Windows/Debugging/SoftwareBreakpointSet.cpp. The debugged process
-- is its memory, a byte for each address. The answers of the three system calls are arguments of the
-- operations: `ReadProcessMemory` and `WriteProcessMemory` succeed and move their byte, or fail and
-- move none, and `FlushInstructionCache` leaves the memory as it is.
mod Tests
pub mod Lookup
pub mod Memory
pub mod Undo
use upx_killer.Common.{
  ℕ, zero, suc, Bool, true, false, Option, none, some, List, [], ◌∷◌, ◌++◌, ◌==◌, if◌then◌else◌,
}

pub record Breakpoint : Type 0 where
  pub address : ℕ
  pub id : ℕ
  pub original : ℕ

-- The process and the set, and the last native error.
pub record Debuggee : Type 0 where
  pub memory : ℕ → ℕ
  pub breakpoints : List Breakpoint
  pub native_error : ℕ

-- Which of the calls succeed in one operation, and `GetLastError()` after one that fails.
pub record Calls : Type 0 where
  pub reads : Bool
  pub writes : Bool
  pub flushes : Bool
  pub last_error : ℕ

abbrev pub trap : ℕ
trap = 0xcc

unfoldable pub write_byte : ℕ → ℕ → (ℕ → ℕ) → ℕ → ℕ
write_byte address value memory a = if a == address then value else memory a

-- `std::find_if` by the address.
unfoldable pub find_breakpoint : ℕ → List Breakpoint → Option Breakpoint
find_breakpoint address [] = none
find_breakpoint address (b ∷ bs) =
    if b.address == address then some b else find_breakpoint address bs

-- `erase` of the breakpoint that `find_if` has found.
unfoldable pub erase_breakpoint : ℕ → List Breakpoint → List Breakpoint
erase_breakpoint address [] = []
erase_breakpoint address (b ∷ bs) =
    if b.address == address then bs else b ∷ erase_breakpoint address bs

unfoldable pub find : Debuggee → ℕ → Option ℕ
find d address = elim (find_breakpoint address d.breakpoints) [ none ↦ none | some b ↦ some b.id ]

-- `Install`, and whether it returns `true`.
unfoldable pub install : Calls → ℕ → ℕ → Debuggee → Bool × Debuggee
install calls address id d =
    let cleared = record d { native_error = 0 } in
    let failed = record d { native_error = calls.last_error } in
    let trapped = write_byte address trap d.memory in
    elim (find_breakpoint address d.breakpoints) [
      | some b ↦ (true, cleared)
      | none ↦
          if calls.reads
          then (if calls.writes
              then (if calls.flushes
                  then (
                    true,
                    record {
                      memory = trapped;
                      breakpoints =
                          d.breakpoints
                          ++ (record { address = address; id = id; original = d.memory address }
                              ∷ []);
                      native_error = 0;
                    },
                  )
                  else (false, record failed { memory = trapped }))
              else (false, failed))
          else (false, failed)
    ]

-- `Restore`, and whether it returns `true`.
unfoldable pub restore : Calls → ℕ → Debuggee → Bool × Debuggee
restore calls address d =
    let cleared = record d { native_error = 0 } in
    let failed = record d { native_error = calls.last_error } in
    elim (find_breakpoint address d.breakpoints) [
      | none ↦ (true, cleared)
      | some b ↦
          let restored = write_byte address b.original d.memory in
          if calls.writes
          then (if calls.flushes
              then (
                true,
                record {
                  memory = restored;
                  breakpoints = erase_breakpoint address d.breakpoints;
                  native_error = 0;
                },
              )
              else (false, record failed { memory = restored }))
          else (false, failed)
    ]

-- `breakpoints_.back()`.
unfoldable pub back : List Breakpoint → Option Breakpoint
back [] = none
back (b ∷ []) = some b
back (b ∷ (c ∷ bs)) = back (c ∷ bs)

-- `breakpoints_.pop_back()`.
unfoldable pub pop_back : List Breakpoint → List Breakpoint
pop_back [] = []
pop_back (b ∷ []) = []
pop_back (b ∷ (c ∷ bs)) = b ∷ pop_back (c ∷ bs)

-- The loop of the destructor, a round for each unit of fuel, with the answers of that round's calls.
unfoldable pub destroy : (ℕ → Calls) → ℕ → Debuggee → Debuggee
destroy calls zero d = d
destroy calls (suc fuel) d = elim (back d.breakpoints) [
  | none ↦ d
  | some b ↦
      let done = restore (calls fuel) b.address d in
      destroy calls fuel
        (if done.0 then done.1 else record done.1 { breakpoints = pop_back done.1.breakpoints })
]
