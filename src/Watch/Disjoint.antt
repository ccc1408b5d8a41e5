-- ===== src/Watch/Disjoint.antt =====
-- The invariant of a thread's watchpoints, and what keeps it: WP_Subscribe, OnWatchPoint and
-- WP_ThreadInit of kvmTest/src/tools/witchTool/watchpoint-lib/src/watchpoint.cpp.
use kognizance_tool.Prelude.{
  ℕ, ◌+◌, ◌<◌, ◌≤◌, ◌≡◌, ◌∙◌, ◌⊎◌, inl, inr, true, false, List, [], ◌∷◌, arith, Bool-cases,
}
use kognizance_tool.Watch.Address.{word_size, addresses_overlap}
use kognizance_tool.Watch.Bounds.{IsLength}
use kognizance_tool.Watch.Slots.{RegisterInfo, is_overlapped}
use kognizance_tool.Watch.Arm.{has_file}
use kognizance_tool.Watch.Rearm.{Kept, Rearmed}

-- Not both active, or of ranges without a common byte.
abbrev pub Apart : RegisterInfo → RegisterInfo → Type 0
Apart v w =
    (v.is_active ≡ false)
    ⊎ ((w.is_active ≡ false) ⊎ ((v.va + v.wp_length ≤ w.va) ⊎ (w.va + w.wp_length ≤ v.va)))

-- An active slot has an admissible length, a range inside the address space, and a device.
abbrev pub Fits : RegisterInfo → Type 0
Fits w =
    (w.is_active ≡ false)
    ⊎ (IsLength w.wp_length × (w.va + w.wp_length < word_size) × (has_file w ≡ true))

abbrev pub ApartFrom : RegisterInfo → List RegisterInfo → Type 0
ApartFrom v [] = Unit
ApartFrom v (w ∷ ws) = Apart v w × ApartFrom v ws

-- The active watchpoints fit and are pairwise without a common byte.
abbrev pub IsValid : List RegisterInfo → Type 0
IsValid [] = Unit
IsValid (w ∷ ws) = Fits w × ApartFrom w ws × IsValid ws

abbrev pub Free : ℕ → ℕ → RegisterInfo → Type 0
Free va len w = (w.is_active ≡ false) ⊎ ((w.va + w.wp_length ≤ va) ⊎ (va + len ≤ w.va))

-- No active slot has a byte of the range.
abbrev pub FreeFrom : ℕ → ℕ → List RegisterInfo → Type 0
FreeFrom va len [] = Unit
FreeFrom va len (w ∷ ws) = Free va len w × FreeFrom va len ws

abbrev pub KeptAll : List RegisterInfo → List RegisterInfo → Type 0
KeptAll [] [] = Unit
KeptAll (w ∷ ws) (v ∷ vs) = Kept w v × KeptAll ws vs
KeptAll _ _ = ⊥

-- One slot changed as the relation says, the others are as they were.
abbrev pub StepIn :
    (RegisterInfo → RegisterInfo → Type 0) → List RegisterInfo → List RegisterInfo → Type 0
StepIn P (w ∷ ws) (v ∷ vs) = (P w v × (vs ≡ ws)) ⊎ ((v ≡ w) × StepIn P ws vs)
StepIn P _ _ = ⊥

Apart-Kept : (v w v' w' : RegisterInfo) → Kept v v' → Kept w w' → Apart v w → Apart v' w'
Apart-Kept v w v' w' h k a = ground arith

Fits-Kept : (w w' : RegisterInfo) → Kept w w' → Fits w → Fits w'
Fits-Kept w w' (inl off) f = inl off
Fits-Kept w w' (inr (on, va, len, file)) (inl off) = inl (on ∙ off)
Fits-Kept w w' (inr (on, va, len, file)) (inr (k, h, g)) =
    inr (rw (len) k, rw (va, len) h, rw file g)

Free-Kept : (va len : ℕ) (w w' : RegisterInfo) → Kept w w' → Free va len w → Free va len w'
Free-Kept va len w w' h a = ground arith

ApartFrom-Kept :
    (v v' : RegisterInfo) (ws ws' : List RegisterInfo)
    → Kept v v'
    → KeptAll ws ws'
    → ApartFrom v ws
    → ApartFrom v' ws'
ApartFrom-Kept v v' [] [] h k a = tt
ApartFrom-Kept v v' [] (w' ∷ ws') h k a = absurd k
ApartFrom-Kept v v' (w ∷ ws) [] h k a = absurd k
ApartFrom-Kept v v' (w ∷ ws) (w' ∷ ws') h (k, ks) (a, rest) =
    (Apart-Kept v w v' w' h k a, ApartFrom-Kept v v' ws ws' h ks rest)

-- Clearing slots keeps the invariant.
pub KeptAll-IsValid : (ws ws' : List RegisterInfo) → KeptAll ws ws' → IsValid ws → IsValid ws'
KeptAll-IsValid [] [] h v = tt
KeptAll-IsValid [] (w' ∷ ws') h v = absurd h
KeptAll-IsValid (w ∷ ws) [] h v = absurd h
KeptAll-IsValid (w ∷ ws) (w' ∷ ws') (h, hs) (f, a, v) =
    (Fits-Kept w w' h f, ApartFrom-Kept w w' ws ws' h hs a, KeptAll-IsValid ws ws' hs v)

pub KeptAll-FreeFrom :
    (va len : ℕ) (ws ws' : List RegisterInfo)
    → KeptAll ws ws'
    → FreeFrom va len ws
    → FreeFrom va len ws'
KeptAll-FreeFrom va len [] [] h v = tt
KeptAll-FreeFrom va len [] (w' ∷ ws') h v = absurd h
KeptAll-FreeFrom va len (w ∷ ws) [] h v = absurd h
KeptAll-FreeFrom va len (w ∷ ws) (w' ∷ ws') (h, hs) (f, fs) =
    (Free-Kept va len w w' h f, KeptAll-FreeFrom va len ws ws' hs fs)

-- The test for an overlap finds no active slot in the way.
overlap-Free :
    (va len : ℕ) (w : RegisterInfo)
    → va + len < word_size
    → IsLength len
    → Fits w
    → w.is_active ≡ true
    → addresses_overlap w.va w.wp_length va len ≡ false
    → Free va len w
unfolding addresses_overlap
overlap-Free va len w h k f on e = ground arith

pub is_overlapped-FreeFrom :
    (va len : ℕ) (ws : List RegisterInfo)
    → va + len < word_size
    → IsLength len
    → IsValid ws
    → is_overlapped va len ws ≡ false
    → FreeFrom va len ws
unfolding is_overlapped
is_overlapped-FreeFrom va len [] h k v e = tt
is_overlapped-FreeFrom va len (w ∷ ws) h k (f, a, v) e = elim (Bool-cases w.is_active) [
  | inr off ↦ (inl off, is_overlapped-FreeFrom va len ws h k v (rw off at e))
  | inl on ↦ elim (Bool-cases (addresses_overlap w.va w.wp_length va len)) [
    | inl t ↦ absurd (ground arith)
    | inr n ↦
        (overlap-Free va len w h k f on n, is_overlapped-FreeFrom va len ws h k v (ground arith))
  ]
]

Apart-comm : (v w : RegisterInfo) → Apart v w → Apart w v
Apart-comm v w a = ground arith

Apart-Rearmed :
    (va len : ℕ) (v w w' : RegisterInfo)
    → Rearmed va len w w'
    → (IsLength len → Free va len v)
    → Apart v w
    → Apart v w' × Apart w' v
Apart-Rearmed va len v w w' (inl (inl off)) k a = (inr (inl off), inl off)
Apart-Rearmed va len v w w' (inl (inr e)) k a = ground arith
Apart-Rearmed va len v w w' (inr (e, e', l, file)) k a =
    let free : Free va len v = k l in ground arith

Fits-Rearmed :
    (va len : ℕ) (w w' : RegisterInfo)
    → va + len < word_size
    → Rearmed va len w w'
    → Fits w
    → Fits w'
Fits-Rearmed va len w w' h (inl k) f = Fits-Kept w w' k f
Fits-Rearmed va len w w' h (inr (e, e', l, file)) f = inr (rw e' l, rw (e, e') h, file)

ApartFrom-Rearmed :
    (va len : ℕ) (ws : List RegisterInfo) (w w' : RegisterInfo)
    → Rearmed va len w w'
    → (IsLength len → FreeFrom va len ws)
    → ApartFrom w ws
    → ApartFrom w' ws
ApartFrom-Rearmed va len [] w w' r k a = tt
ApartFrom-Rearmed va len (v ∷ vs) w w' r k (a, rest) = (
  (Apart-Rearmed va len v w w' r (λ l. (k l).0) (Apart-comm w v a)).1,
  ApartFrom-Rearmed va len vs w w' r (λ l. (k l).1) rest,
)

ApartFrom-StepIn :
    (va len : ℕ) (v : RegisterInfo) (ws ws' : List RegisterInfo)
    → StepIn (Rearmed va len) ws ws'
    → (IsLength len → Free va len v)
    → ApartFrom v ws
    → ApartFrom v ws'
ApartFrom-StepIn va len v [] ws' s k a = absurd s
ApartFrom-StepIn va len v (w ∷ ws) [] s k a = absurd s
ApartFrom-StepIn va len v (w ∷ ws) (w' ∷ ws') (inl (r, e)) k (a, rest) =
    ((Apart-Rearmed va len v w w' r k a).0, rw e rest)
ApartFrom-StepIn va len v (w ∷ ws) (w' ∷ ws') (inr (e, s)) k (a, rest) =
    (rw e a, ApartFrom-StepIn va len v ws ws' s k rest)

-- Rearming one slot to a free range keeps the invariant.
pub StepIn-IsValid :
    (va len : ℕ) (ws ws' : List RegisterInfo)
    → va + len < word_size
    → StepIn (Rearmed va len) ws ws'
    → (IsLength len → FreeFrom va len ws)
    → IsValid ws
    → IsValid ws'
StepIn-IsValid va len [] ws' h s k v = absurd s
StepIn-IsValid va len (w ∷ ws) [] h s k v = absurd s
StepIn-IsValid va len (w ∷ ws) (w' ∷ ws') h (inl (r, e)) k (f, a, v) = (
  Fits-Rearmed va len w w' h r f,
  rw e (ApartFrom-Rearmed va len ws w w' r (λ l. (k l).1) a),
  rw e v,
)
StepIn-IsValid va len (w ∷ ws) (w' ∷ ws') h (inr (e, s)) k (f, a, v) = (
  rw e f,
  rw e (ApartFrom-StepIn va len w ws ws' s (λ l. (k l).0) a),
  StepIn-IsValid va len ws ws' h s (λ l. (k l).1) v,
)
