-- ===== src/Guest/Search.antt =====
-- The KVM agent's search for the previous instruction, kvmTest/src/agent/kvmAgent/decoder.cpp,
-- against the native agent's search in the copied code.
use kognizance_tool.Prelude.{
  ℕ, zero, suc, ◌+◌, ◌-◌, ◌%◌, ◌^◌, ◌≤◌, ◌<◌, ◌≡◌, ◌≢◌, refl, ap, ◌∙◌, inl, inr, Bool, true, false,
  none, some, List, [], ◌==◌, ==-false, ◌&&◌, leb, ltb, arith, Bool-cases,
}
use kognizance_tool.Prelude.Int.{pos, signed32}
use kognizance_tool.Watch.Address.{sub64}
use kognizance_tool.Decoder.{Xed, sweep, is_excluded, get_previous_instruction}
use kognizance_tool.Decoder.Search.{next, next_grows}
use kognizance_tool.Guest.Memory.{Guest, host_copy}
use kognizance_tool.Guest.Reading.{
  ByteXed, in_buffer, copy_sweep, at_start, search_copy, previous_from, guest_previous_instruction,
}

and_false : (b : Bool) → (b && false) ≡ false
and_false true = refl
and_false false = refl

-- Behind the end the native loop stops.
sweep_past :
    {I : Type 0} (xed : Xed I) (fuel p ins : ℕ)
    → 0 < fuel
    → ins < p
    → sweep xed fuel p ins ≡ some none
unfolding sweep
sweep_past xed zero p ins h k = absurd (omega (arith, h))
sweep_past xed (suc fuel) p ins h k =
    let f : leb p ins ≡ false = ground (arith, k) in rw (f, sweep) refl

module _ {I : Type 0} (xed : ByteXed I) (guest : Guest)
    (grows : (i : I) → 1 ≤ xed.queries.get_length i) where
  -- The two loops end by different tests, but an instruction behind the end cannot end at it.
  copy_sweep-sweep :
      (buffer : List ℕ) (fuel pins size : ℕ)
      → suc size < pins + fuel
      → copy_sweep xed guest buffer fuel pins size
        ≡ sweep (in_buffer xed guest buffer) fuel pins size
  unfolding copy_sweep sweep
  copy_sweep-sweep buffer zero pins size h = refl
  copy_sweep-sweep buffer (suc fuel) pins size h =
      let native : Xed I = in_buffer xed guest buffer in
      let up : pins < next native pins = next_grows native grows pins in
      elim (Bool-cases (ltb pins size)) [
        | inl t ↦
            let inside : leb pins size ≡ true = ground (arith, t) in
            let rest =
              copy_sweep-sweep buffer fuel (next native pins) size (omega (arith, h, up)) in
            rw (t, inside, copy_sweep, sweep) (rw rest refl)
        | inr f ↦
            rw (f, copy_sweep)
              (elim (Bool-cases (leb pins size)) [
                | inr g ↦ rw (g, sweep) refl
                | inl t ↦
                    let last : (next native pins == size) ≡ false = ground (arith, up, f) in
                    let past =
                      sweep_past native fuel (next native pins) size (ground (arith, h, t, up))
                        (ground (arith, up, f)) in
                    rw (t, last, and_false, past, sweep) refl
              ])
      ]

  -- If instructions are at least one byte long, and the function's code can be copied, in the size
  -- that the distance to its start has as an int, which is positive, the search answers as the
  -- native agent's search does in the copy, moved to the function's start.
  pub guest_previous_instruction-native :
      (start ins size : ℕ) (buffer : List ℕ)
      → start ≢ ins
      → 0 < size
      → signed32 (sub64 ins start % 2 ^ 32) ≡ pos size
      → host_copy guest start size ≡ some buffer
      → guest_previous_instruction xed guest (some start) ins
        ≡ at_start start (get_previous_instruction (in_buffer xed guest buffer) (some 0) size [])
  unfolding guest_previous_instruction previous_from search_copy get_previous_instruction
      is_excluded
  guest_previous_instruction-native start ins size buffer ne some_bytes sized copied =
      let differs : (start == ins) ≡ false = ==-false start ins ne in
      let filled : (size == 0) ≡ false = ground (arith, some_bytes) in
      let whole : size ≡ size - 0 = omega arith in
      rw (differs, sized, previous_from)
        (rw (filled, copied, search_copy)
          (ap (at_start start) (
            copy_sweep-sweep buffer (suc (suc size)) 0 size (omega arith)
            ∙ ap (λ k. sweep (in_buffer xed guest buffer) (suc (suc k)) 0 size) whole)))
