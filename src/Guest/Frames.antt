-- ===== src/Guest/Frames.antt =====
-- Which frames of a report kvm__doneEventProcessing_HyPerf of
-- kvmTest/src/agent/kvmAgent/kvminterface.cpp takes.
use kognizance_tool.Prelude.{
  ℕ, ◌+◌, ◌≡◌, refl, ap, true, false, List, [], ◌∷◌, ◌==◌, take, drop, map, if◌then◌else◌,
  Bool-cases, inl, inr,
}
use kognizance_tool.Guest.Interface.{VmFrame, frame_of_vm, note_frame, record_frames, recorded}

-- The frames from the first one on whose address is that of the one before.
abbrev pub from_repeat : ℕ → List VmFrame → List VmFrame
from_repeat prev [] = []
from_repeat prev (f ∷ fs) =
    let rest = from_repeat f.binary_addr fs in if prev == f.binary_addr then f ∷ fs else rest

started :
    (prev freq : ℕ) (fs : List VmFrame)
    → record_frames (record { prev_binary_addr = prev; start_recording = true; freq = freq }) fs
      ≡ map frame_of_vm fs
unfolding record_frames note_frame
started prev freq [] = refl
started prev freq (f ∷ fs) =
    let rest = λ (n : ℕ). ap (λ ts. frame_of_vm f ∷ ts) (started f.binary_addr n fs) in
    elim (Bool-cases (prev == f.binary_addr)) [
      | inr g ↦ rw g (rest freq)
      | inl t ↦ elim (Bool-cases (freq + 1 == 2)) [
        | inl u ↦ rw (t, u) (rest (freq + 1))
        | inr u ↦ rw (t, u) (rest (freq + 1))
      ]
    ]

waiting :
    (prev : ℕ) (fs : List VmFrame)
    → record_frames (record { prev_binary_addr = prev; start_recording = false; freq = 1 }) fs
      ≡ map frame_of_vm (from_repeat prev fs)
unfolding record_frames note_frame
waiting prev [] = refl
waiting prev (f ∷ fs) = elim (Bool-cases (prev == f.binary_addr)) [
  | inl t ↦ rw (t, from_repeat) (ap (λ ts. frame_of_vm f ∷ ts) (started f.binary_addr 2 fs))
  | inr g ↦ rw (g, from_repeat) (waiting f.binary_addr fs)
]

-- The recorded context is the part of the report's first `count` frames, less three, that starts at
-- the first frame with the address of the one before; a first frame at address 0 counts as such.
pub recorded-from_repeat :
    (frames : List VmFrame) (count : ℕ)
    → recorded frames count ≡ map frame_of_vm (from_repeat 0 (drop 3 (take count frames)))
recorded-from_repeat frames count = waiting 0 (drop 3 (take count frames))
