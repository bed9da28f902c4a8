-- ===== src/Breakpoints/Undo.antt =====
-- Taking breakpoints back: after one is installed, in the destructor, and after a failure to flush.
use upx_killer.Common.{
  ℕ, zero, suc, length, ◌≡◌, ◌≢◌, refl, sym, ap, subst, arith, true, false, none, some, List, [],
  ◌∷◌, ◌++◌, ◌==◌, Bool-cases, Option-cases, inl, inr,
}
use upx_killer.Breakpoints.{
  Breakpoint, Debuggee, Calls, trap, write_byte, find_breakpoint, erase_breakpoint, install,
  restore, back, destroy,
}
use upx_killer.Breakpoints.Lookup.{find-append_same, erase-append, length-erase, back-found}
use upx_killer.Breakpoints.Memory.{IsOverlay, restore-IsOverlay}

-- The calls that change the process succeed.
pub record Succeeds (calls : Calls) : Type 0 where
  pub reads : calls.reads ≡ true
  pub writes : calls.writes ≡ true
  pub flushes : calls.flushes ≡ true

install_new :
    (calls : Calls) (address id : ℕ) (d : Debuggee)
    → Succeeds calls
    → find_breakpoint address d.breakpoints ≡ none
    → install calls address id d ≡ (
      true,
      record {
        memory = write_byte address trap d.memory;
        breakpoints =
            d.breakpoints
            ++ (record { address = address; id = id; original = d.memory address } ∷ []);
        native_error = 0;
      },
    )
unfolding install
install_new calls address id d s unknown = rw (install, unknown, s.reads, s.writes, s.flushes)

restore_known :
    (calls : Calls) (address : ℕ) (d : Debuggee) (b : Breakpoint)
    → Succeeds calls
    → find_breakpoint address d.breakpoints ≡ some b
    → restore calls address d ≡ (
      true,
      record {
        memory = write_byte address b.original d.memory;
        breakpoints = erase_breakpoint address d.breakpoints;
        native_error = 0;
      },
    )
unfolding restore
restore_known calls address d b s known = rw (restore, known, s.writes, s.flushes)

write_byte-back :
    (address value : ℕ) (memory : ℕ → ℕ) (a : ℕ)
    → write_byte address (memory address) (write_byte address value memory) a ≡ memory a
unfolding write_byte
write_byte-back address value memory a = elim (Bool-cases (a == address)) [
  | inl here ↦ let same : a ≡ address = ground arith in rw (here) (ap memory (sym same))
  | inr elsewhere ↦ rw (elsewhere)
]

-- A breakpoint that is installed at a free address and then restored, with calls that succeed, leaves
-- the memory and the set as they were, and both operations report success.
pub install-restore :
    (first second : Calls) (address id : ℕ) (d : Debuggee)
    → Succeeds first
    → Succeeds second
    → find_breakpoint address d.breakpoints ≡ none
    → ((install first address id d).0 ≡ true)
      × ((restore second address (install first address id d).1).0 ≡ true)
      × ((a : ℕ) → (restore second address (install first address id d).1).1.memory a ≡ d.memory a)
      × ((restore second address (install first address id d).1).1.breakpoints ≡ d.breakpoints)
install-restore first second address id d s t unknown =
    let added : Breakpoint = record { address = address; id = id; original = d.memory address } in
    let put = install_new first address id d s unknown in
    let taken =
      restore_known second address
        (record {
          memory = write_byte address trap d.memory;
          breakpoints = d.breakpoints ++ (added ∷ []);
          native_error = 0;
        })
        added t (find-append_same d.breakpoints added unknown) in
    rw (put, taken)
      ((
        refl,
        refl,
        write_byte-back address trap d.memory,
        erase-append d.breakpoints added unknown,
      ))

some_back : (bs : List Breakpoint) (b : Breakpoint) → back (b ∷ bs) ≢ none
unfolding back
some_back [] b e = ground arith
some_back (c ∷ bs) b e = some_back bs c e

back-none : (bs : List Breakpoint) → back bs ≡ none → (a : ℕ) → find_breakpoint a bs ≡ none
unfolding back find_breakpoint
back-none [] e a = refl
back-none (b ∷ []) e a = absurd (ground arith)
back-none (b ∷ (c ∷ bs)) e a = absurd (some_back bs c e)

nothing_left :
    (original : ℕ → ℕ) (d : Debuggee)
    → IsOverlay original d
    → back d.breakpoints ≡ none
    → (a : ℕ) → d.memory a ≡ original a
nothing_left original d inv e a = inv.plain a (back-none d.breakpoints e a)

empty_back : (bs : List Breakpoint) → length bs ≡ 0 → back bs ≡ none
unfolding back
empty_back [] e = refl
empty_back (b ∷ bs) e = absurd (ground arith)

-- The destructor gives the process its code back when its calls succeed, with a round of its loop
-- for each breakpoint, and no breakpoint is left.
pub destroy-restores :
    (original : ℕ → ℕ) (calls : ℕ → Calls) (fuel : ℕ) (d : Debuggee)
    → ((n : ℕ) → Succeeds (calls n))
    → length d.breakpoints ≡ fuel
    → IsOverlay original d
    → ((a : ℕ) → (destroy calls fuel d).memory a ≡ original a)
      × (back (destroy calls fuel d).breakpoints ≡ none)
unfolding destroy
destroy-restores original calls zero d s n inv =
    let empty = empty_back d.breakpoints n in (nothing_left original d inv empty, empty)
destroy-restores original calls (suc fuel) d s n inv = elim (Option-cases (back d.breakpoints)) [
  | inl empty ↦ rw (destroy, empty) ((nothing_left original d inv empty, empty))
  | inr last ↦
      let found = back-found d.breakpoints last.0 last.1 in
      let taken = restore_known (calls fuel) last.0.address d found.0 (s fuel) found.1 in
      let left : length (erase_breakpoint last.0.address d.breakpoints) ≡ fuel =
        omega (arith, length-erase last.0.address d.breakpoints found.0 found.1, n) in
      let kept =
        subst (λ r. IsOverlay original r.1) taken
          (restore-IsOverlay original (calls fuel) last.0.address d inv) in
      rw (destroy, last.1, taken) (destroy-restores original calls fuel _ s left kept)
]

write_byte_same :
    (address value : ℕ) (memory : ℕ → ℕ) → write_byte address value memory address ≡ value
unfolding write_byte
write_byte_same address value memory = ground arith

install_not_flushed :
    (calls : Calls) (address id : ℕ) (d : Debuggee)
    → calls.reads ≡ true
    → calls.writes ≡ true
    → calls.flushes ≡ false
    → find_breakpoint address d.breakpoints ≡ none
    → install calls address id d ≡ (
      false,
      record {
        memory = write_byte address trap d.memory;
        breakpoints = d.breakpoints;
        native_error = calls.last_error;
      },
    )
unfolding install
install_not_flushed calls address id d r w f unknown = rw (install, unknown, r, w, f)

restore_unknown :
    (calls : Calls) (address : ℕ) (d : Debuggee)
    → find_breakpoint address d.breakpoints ≡ none
    → restore calls address d ≡ (true, record d { native_error = 0 })
unfolding restore
restore_unknown calls address d unknown = rw (restore, unknown)

-- When the byte is written and the flush fails, `Install` reports a failure and the trap stays in the
-- memory without a breakpoint: `Restore` then reports success and leaves it there, and a later
-- `Install` takes the trap for the original byte.
pub install-unflushed :
    (first second third : Calls) (address id : ℕ) (d : Debuggee)
    → first.reads ≡ true
    → first.writes ≡ true
    → first.flushes ≡ false
    → find_breakpoint address d.breakpoints ≡ none
    → Succeeds third
    → ((install first address id d).0 ≡ false)
      × ((restore second address (install first address id d).1).0 ≡ true)
      × ((restore second address (install first address id d).1).1.memory address ≡ trap)
      × (find_breakpoint address
            (install third address id (install first address id d).1).1.breakpoints
          ≡ some (record { address = address; id = id; original = trap }))
install-unflushed first second third address id d r w f unknown s =
    let trapped = write_byte address trap d.memory in
    let after : Debuggee = record {
      memory = trapped;
      breakpoints = d.breakpoints;
      native_error = first.last_error;
    } in
    let there = write_byte_same address trap d.memory in
    let kept : Breakpoint = record { address = address; id = id; original = trapped address } in
    rw
      (
        install_not_flushed first address id d r w f unknown,
        restore_unknown second address after unknown,
        install_new third address id after s unknown,
        find-append_same d.breakpoints kept unknown,
      )
      ((
        refl,
        refl,
        there,
        ap (λ v. some (record { address = address; id = id; original = v })) there,
      ))
