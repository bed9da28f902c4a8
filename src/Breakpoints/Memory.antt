-- ===== src/Breakpoints/Memory.antt =====
-- What a set of breakpoints knows of the memory it has changed.
use upx_killer.Common.{
  ℕ, ◌≡◌, sym, ap, ◌∙◌, arith, true, none, some, [], ◌∷◌, ◌++◌, ◌==◌, Bool-cases, Option-cases, inl,
  inr,
}
use upx_killer.Breakpoints.{
  Breakpoint, Debuggee, Calls, trap, write_byte, find_breakpoint, erase_breakpoint, install,
  restore,
}
use upx_killer.Breakpoints.Lookup.{
  IsDistinct, find-erase_other, find-erase_same, erase-IsDistinct, find-append_other,
  find-append_same, append-IsDistinct,
}

-- The set and the memory belong to a process whose code was `original`: a byte without a breakpoint
-- is the original one, and every breakpoint keeps the original byte of its address.
pub record IsOverlay (original : ℕ → ℕ) (d : Debuggee) : Type 0 where
  pub distinct : IsDistinct d.breakpoints
  pub plain : (a : ℕ) → find_breakpoint a d.breakpoints ≡ none → d.memory a ≡ original a
  pub saved :
      (a : ℕ) (b : Breakpoint) → find_breakpoint a d.breakpoints ≡ some b → b.original ≡ original a

module _ (original : ℕ → ℕ) (address id : ℕ) (d : Debuggee) (inv : IsOverlay original d) where
  installed-IsOverlay :
      find_breakpoint address d.breakpoints ≡ none
      → IsOverlay original (record {
        memory = write_byte address trap d.memory;
        breakpoints =
            d.breakpoints
            ++ (record { address = address; id = id; original = d.memory address } ∷ []);
        native_error = 0;
      })
  unfolding write_byte
  installed-IsOverlay none_there =
      let added : Breakpoint = record { address = address; id = id; original = d.memory address } in
      record {
        distinct = append-IsDistinct d.breakpoints added inv.distinct none_there;
        plain = λ a e. elim (Bool-cases (a == address)) [
          | inl here ↦
              let same : a ≡ address = ground arith in
              absurd (ground (arith, find-append_same d.breakpoints added none_there))
          | inr elsewhere ↦
              rw (elsewhere) (
                inv.plain a (sym (find-append_other a d.breakpoints added (λ s. ground arith)) ∙ e))
        ];
        saved = λ a b e. elim (Bool-cases (a == address)) [
          | inl here ↦
              let same : a ≡ address = ground arith in
              let kept : b.original ≡ d.memory address =
                ground (arith, find-append_same d.breakpoints added none_there) in
              kept ∙ inv.plain address none_there ∙ ap original (sym same)
          | inr elsewhere ↦
              inv.saved a b (sym (find-append_other a d.breakpoints added (λ s. ground arith)) ∙ e)
        ];
      }

  restored-IsOverlay :
      (b : Breakpoint)
      → find_breakpoint address d.breakpoints ≡ some b
      → IsOverlay original (record {
        memory = write_byte address b.original d.memory;
        breakpoints = erase_breakpoint address d.breakpoints;
        native_error = 0;
      })
  unfolding write_byte
  restored-IsOverlay b there = record {
    distinct = erase-IsDistinct address d.breakpoints inv.distinct;
    plain = λ a e. elim (Bool-cases (a == address)) [
      | inl here ↦
          let same : a ≡ address = ground arith in
          rw (here) (inv.saved address b there ∙ ap original (sym same))
      | inr elsewhere ↦
          rw (elsewhere)
            (inv.plain a (sym (find-erase_other a address d.breakpoints (λ s. ground arith)) ∙ e))
    ];
    saved = λ a c e. elim (Bool-cases (a == address)) [
      | inl here ↦
          let same : a ≡ address = ground arith in
          absurd (ground (arith, find-erase_same address d.breakpoints inv.distinct))
      | inr elsewhere ↦
          inv.saved a c (sym (find-erase_other a address d.breakpoints (λ s. ground arith)) ∙ e)
    ];
  }

  -- A write of the original byte that leaves the breakpoint where it is.
  rewritten-IsOverlay :
      (b : Breakpoint) (error : ℕ)
      → find_breakpoint address d.breakpoints ≡ some b
      → IsOverlay original
          (record d { memory = write_byte address b.original d.memory; native_error = error })
  unfolding write_byte
  rewritten-IsOverlay b error there = record {
    distinct = inv.distinct;
    plain = λ a e. elim (Bool-cases (a == address)) [
      | inl here ↦ let same : a ≡ address = ground arith in absurd (ground arith)
      | inr elsewhere ↦ rw (elsewhere) (inv.plain a e)
    ];
    saved = inv.saved;
  }

  error-IsOverlay : (error : ℕ) → IsOverlay original (record d { native_error = error })
  error-IsOverlay error = record { distinct = inv.distinct; plain = inv.plain; saved = inv.saved }

-- Installing a breakpoint keeps the set and the memory in step, on every branch but the failure to
-- flush the instruction cache.
pub install-IsOverlay :
    (original : ℕ → ℕ) (calls : Calls) (address id : ℕ) (d : Debuggee)
    → calls.flushes ≡ true
    → IsOverlay original d
    → IsOverlay original (install calls address id d).1
unfolding install
install-IsOverlay original calls address id d flushed inv =
    elim (Option-cases (find_breakpoint address d.breakpoints)) [
      | inr known ↦ rw (install, known.1) (error-IsOverlay original address id d inv 0)
      | inl unknown ↦ elim (Bool-cases calls.reads) [
        | inr unread ↦
            rw (install, unknown, unread)
              (error-IsOverlay original address id d inv calls.last_error)
        | inl was_read ↦ elim (Bool-cases calls.writes) [
          | inr unwritten ↦
              rw (install, unknown, was_read, unwritten)
                (error-IsOverlay original address id d inv calls.last_error)
          | inl written ↦
              rw (install, unknown, was_read, written, flushed)
                (installed-IsOverlay original address id d inv unknown)
        ]
      ]
    ]

-- Restoring a breakpoint keeps the set and the memory in step on every branch.
pub restore-IsOverlay :
    (original : ℕ → ℕ) (calls : Calls) (address : ℕ) (d : Debuggee)
    → IsOverlay original d
    → IsOverlay original (restore calls address d).1
unfolding restore
restore-IsOverlay original calls address d inv =
    elim (Option-cases (find_breakpoint address d.breakpoints)) [
      | inl unknown ↦ rw (restore, unknown) (error-IsOverlay original address 0 d inv 0)
      | inr known ↦ elim (Bool-cases calls.writes) [
        | inr unwritten ↦
            rw (restore, known.1, unwritten)
              (error-IsOverlay original address 0 d inv calls.last_error)
        | inl written ↦ elim (Bool-cases calls.flushes) [
          | inl flushed ↦
              rw (restore, known.1, written, flushed)
                (restored-IsOverlay original address 0 d inv known.0 known.1)
          | inr unflushed ↦
              rw (restore, known.1, written, unflushed)
                (rewritten-IsOverlay original address 0 d inv known.0 calls.last_error known.1)
        ]
      ]
    ]
