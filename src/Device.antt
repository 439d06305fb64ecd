-- ===== src/Device.antt =====
-- The device handle, `DeviceIo` of rawobjstr/src/io.rs: `pwrite` and `pread` at byte offsets.
-- The file is a function from offsets to bytes. What the operating system refuses is part of the
-- state: a schedule with one answer for each coming write or sync, and the ranges that cannot be read.
-- A write is seen by the reads behind it at once, and a crash may lose it until a sync has succeeded.
-- The blocks of this program are written whole, so the padding for O_DIRECT adds nothing.
pub mod ReadWrite
use Prim.Native.String.{String}
use objstr.Base.{
  ℕ, zero, suc, ◌+◌, ◌-◌, ◌≤◌, ◌<◌, Bool, true, false, ◌≡◌, ◌&&◌, ◌||◌, List, [], ◌∷◌, ltb, leb,
  ◌==◌, if◌then◌else◌, length, take,
}
use objstr.RawError.{Bytes, Result, ok, err, read_only, io}

-- A write is done whole, or stops with an error after its first bytes.
pub data Answer : Type 0 where
  whole : Answer
  stops_after : ℕ → Answer

pub record DeviceIo : Type 0 where
  pub content : ℕ → ℕ
  -- the contents before each of the writes that no sync has followed
  pub unsynced : List (ℕ → ℕ)
  -- one for each coming write or sync; after the last one all succeed
  pub answers : List Answer
  pub unreadable : ℕ → ℕ → Bool
  pub ro : Bool

-- The file after `write_all_at(data, offset)`.
unfoldable pub overlay : Bytes → ℕ → (ℕ → ℕ) → ℕ → ℕ
overlay [] offset f x = f x
overlay (b ∷ rest) offset f x = if x == offset then b else overlay rest (offset + 1) f x

unfoldable pub bytes_at : (ℕ → ℕ) → ℕ → ℕ → Bytes
bytes_at f offset zero = []
bytes_at f offset (suc n) = f offset ∷ bytes_at f (offset + 1) n

-- One write, by the answer that the schedule gives.
unfoldable pub write_answered : DeviceIo → ℕ → Bytes → List Answer → Result (Unit {0}) × DeviceIo
write_answered d offset bytes [] = (
  ok tt,
  record d { content = overlay bytes offset d.content; unsynced = d.content ∷ d.unsynced },
)
write_answered d offset bytes (whole ∷ rest) = (
  ok tt,
  record d {
    content = overlay bytes offset d.content;
    unsynced = d.content ∷ d.unsynced;
    answers = rest;
  },
)
write_answered d offset bytes (stops_after n ∷ rest) = (
  err (io "write_all_at"),
  record d {
    content = overlay (take n bytes) offset d.content;
    unsynced = d.content ∷ d.unsynced;
    answers = rest;
  },
)

unfoldable pub pwrite : DeviceIo → ℕ → Bytes → Result (Unit {0}) × DeviceIo
unfolding write_answered
pwrite d offset bytes = if d.ro then (err read_only, d) else write_answered d offset bytes d.answers

unfoldable pub pread : DeviceIo → ℕ → ℕ → Result Bytes
pread d offset zero = ok []
pread d offset (suc n) =
    if d.unreadable offset (suc n)
    then err (io "read_exact_at")
    else ok (bytes_at d.content offset (suc n))

-- `sync_all`: it takes an answer too. When it succeeds, all that was written is durable.
unfoldable pub sync_answered : DeviceIo → List Answer → Result (Unit {0}) × DeviceIo
sync_answered d [] = (ok tt, record d { unsynced = [] })
sync_answered d (whole ∷ rest) = (ok tt, record d { unsynced = []; answers = rest })
sync_answered d (stops_after n ∷ rest) = (err (io "sync_all"), record d { answers = rest })

unfoldable pub sync : DeviceIo → Result (Unit {0}) × DeviceIo
unfolding sync_answered
sync d = if d.ro then (err read_only, d) else sync_answered d d.answers

unfoldable pub was : ℕ → ℕ → List (ℕ → ℕ) → Bool
was x v [] = false
was x v (f ∷ older) = f x == v || was x v older

-- After a crash a byte is the last that was written there, or one from before any of the writes that
-- no sync has followed, whatever the other bytes are.
unfoldable pub may_hold : DeviceIo → ℕ → ℕ → Bool
unfolding was
may_hold d x v = d.content x == v || was x v d.unsynced

-- The contents that a crash may leave.
abbrev pub Crashed : DeviceIo → (ℕ → ℕ) → Type 0
Crashed d c = (x : ℕ) → may_hold d x (c x) ≡ true

-- The device when it is opened again.
unfoldable pub reopened : DeviceIo → (ℕ → ℕ) → DeviceIo
reopened d c = record d { content = c; unsynced = [] }
