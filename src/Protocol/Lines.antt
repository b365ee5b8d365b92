-- ===== src/Protocol/Lines.antt =====
-- The lines of a client's connection, in server/main.c: `send_all` and `read_command_line`. What the
-- operating system answers to each call is a list.
pub mod Laws
use event_ticketing_platform.Base.{
  ℕ, zero, suc, ◌+◌, ◌-◌, ◌≤◌, ◌<◌, Bool, true, false, ◌||◌, Option, none, some, List, [], ◌∷◌,
  ◌++◌, ltb, ◌==◌, if◌then◌else◌, length, take, drop,
}

-- What one round of the reading loop meets: the flag `g_shutdown`, a call that is interrupted or times
-- out, the end or a failure of the connection, or a byte.
pub data ReadAnswer : Type 0 where
  shutting_down interrupted disconnected : ReadAnswer
  byte : ℕ → ReadAnswer

-- The returned count with the buffer, -2 or -1.
pub data LineResult : Type 0 where
  line : List ℕ → LineResult
  too_long closed : LineResult

-- A byte other than the line feed: `used` is the buffer, `overflow` the flag.
abbrev pub kept : ℕ → List ℕ → ℕ → List ℕ
kept capacity used ch = if ltb (length used + 1) capacity then used ++ ch ∷ [] else used

abbrev pub lost : ℕ → List ℕ → Bool → ℕ → Bool
lost capacity used overflow ch =
    if ltb (length used + 1) capacity then (overflow || ch == 0) else true

-- None while the answers have not ended the line.
unfoldable pub read_loop : ℕ → List ReadAnswer → List ℕ → Bool → Option LineResult
read_loop capacity [] used overflow = none
read_loop capacity (shutting_down ∷ answers) used overflow = some closed
read_loop capacity (interrupted ∷ answers) used overflow = read_loop capacity answers used overflow
read_loop capacity (disconnected ∷ answers) used overflow = some closed
read_loop capacity (byte ch ∷ answers) used overflow =
    let rest =
      read_loop capacity answers (kept capacity used ch) (lost capacity used overflow ch) in
    if ch == 10 then some (if overflow then too_long else line used) else rest

unfoldable pub read_command_line : ℕ → List ReadAnswer → Option LineResult
unfolding read_loop
read_command_line capacity answers = read_loop capacity answers [] false

-- What a call of `write` answers: it is interrupted, it fails or writes nothing, or it takes so many
-- bytes, of those it is given.
pub data WriteAnswer : Type 0 where
  retry fails : WriteAnswer
  wrote : ℕ → WriteAnswer

-- The bytes written, and whether all of them were; none while the answers do not tell. `data` is what is
-- left to send; a count of 0 is the failure.
unfoldable pub send_all : List ℕ → List WriteAnswer → List ℕ × Option Bool
send_all [] answers = ([], some true)
send_all (c ∷ cs) [] = ([], none)
send_all (c ∷ cs) (retry ∷ answers) = send_all (c ∷ cs) answers
send_all (c ∷ cs) (fails ∷ answers) = ([], some false)
send_all (c ∷ cs) (wrote zero ∷ answers) = ([], some false)
send_all (c ∷ cs) (wrote (suc n) ∷ answers) =
    let rest = send_all (drop n cs) answers in (c ∷ take n cs ++ rest.0, rest.1)
