-- ===== src/Perf/Buffer.antt =====
-- perf_mmap_read of kvmTest/src/platform/device/perf_parser.cpp: the copy of the ring and the loop
-- over the records. The allocation of the copy is taken to succeed. The loop has fuel.
use kognizance_tool.Prelude.{
  ℕ, zero, suc, ◌+◌, ◌*◌, ◌/◌, ◌%◌, ◌^◌, true, false, Option, none, some, List, ◌++◌, take, drop,
  ltb, ◌==◌, if◌then◌else◌,
}
use kognizance_tool.Prelude.Int.{ℤ, pos, negsuc, pos_part, signed32, signed64}
use kognizance_tool.Event.{Event}
use kognizance_tool.Platform.World.{M, ◌>>=◌, pure}
use kognizance_tool.Platform.Sessions.{generate_event_key}
use kognizance_tool.Watch.Address.{sub64}
use kognizance_tool.Witch.Totals.{bits64}
use kognizance_tool.Ring.{Ring}
use kognizance_tool.Perf.Words.{Cursor}
use kognizance_tool.Perf.Sample.{Format}
use kognizance_tool.Perf.Records.{parse_record}

pub data ReadOutcome (A : Type 0) : Type 0 where
  parsed : A → ReadOutcome A
  faulted starved : ReadOutcome A

-- The loop `while (offset < size)`.
unfoldable pub read_records : List ℕ → Format → ℕ → ℕ → Cursor → ReadOutcome Event
read_records bytes f zero size c = if ltb c.at size then starved else parsed c.event
read_records bytes f (suc fuel) size c = elim (ltb c.at size) [
  | false ↦ parsed c.event
  | true ↦ elim (parse_record bytes f c) [
    | none ↦ faulted
    | some d ↦ read_records bytes f fuel size d
  ]
]

-- Every record has a header of 8 bytes.
abbrev pub fuel_for : ℕ → ℕ
fuel_for size = size / 8 + 1

-- `prev_head % bytesize`; a negative remainder is a copy from before the ring.
unfoldable pub wrap_of : ℤ → ℕ → Option ℕ
wrap_of (pos n) bytesize = some (n % bytesize)
wrap_of (negsuc n) bytesize = if suc n % bytesize == 0 then some 0 else none

-- The two copies.
unfoldable pub rotated : ℕ → List ℕ → List ℕ
rotated wrap payload = drop wrap payload ++ take wrap payload

-- `size=head-prev_head`, an int.
abbrev pub new_bytes : Ring → ℤ → ℤ
new_bytes r prev_head = signed32 (sub64 r.data_head (bits64 prev_head) % 2 ^ 32)

-- The returned head with the ring and the event; a mapping that is NULL is `none`.
unfoldable pub perf_mmap_read :
    Format → ℕ → ℕ → ℤ → Option Ring → Event → ReadOutcome (ℤ × Option Ring × Event)
perf_mmap_read f mmap_size pgsz prev_head ring event =
    if mmap_size == 0 then parsed (pos 0, ring, event) else elim ring [
      | none ↦ parsed (negsuc 0, none, event)
      | some r ↦ elim (wrap_of prev_head (mmap_size * pgsz)) [
        | none ↦ faulted
        | some wrap ↦
            let size = pos_part (new_bytes r prev_head) in
            elim (read_records (rotated wrap r.payload) f (fuel_for size) size
              (record { event = event; at = 0 })) [
                | parsed e ↦
                    parsed (signed64 r.data_head, some (record r { data_tail = r.data_head }), e)
                | faulted ↦ faulted
                | starved ↦ starved
              ]
      ]
    ]

abbrev pub num_mmap_pages : ℕ
num_mmap_pages = 8

-- Device::handle_perf_event, from the fields of a new event: the read head, the ring and the event.
unfoldable pub handle_perf_event :
    ℕ → ℕ → ℕ → ℤ → Option Ring → Event → M (ReadOutcome (ℤ × Option Ring × Event))
handle_perf_event sample_type pgsz file_id read_head ring fresh = do
  id ← generate_event_key
  pure
      (elim (perf_mmap_read (record { sample_type = sample_type; read_format = 0; reg_mask = 0 })
        num_mmap_pages pgsz read_head ring
        (record fresh { event_id = id; device_file_id = file_id })) [
          | parsed (head, ring', event) ↦ parsed (
            head,
            ring',
            if event.sample_index == 0
                then event
                else record event { event_id = event.sample_index },
          )
          | faulted ↦ faulted
          | starved ↦ starved
        ])
