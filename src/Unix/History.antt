-- ===== src/Unix/History.antt =====
-- What a history of calls (Sys) says: how often a call was made, and what state the calls have left.
use ex_pty.Prelude.{
  ℕ, suc, Bool, true, false, List, [], ◌∷◌, ℤ, pos, some, ◌||◌, ◌==◌, ◌==ℤ◌, if◌then◌else◌,
}
use ex_pty.Unix.Sys.{Event, Image, Thread, History}

abbrev pub count : (Event → Bool) → History → ℕ
count test [] = 0
count test (ev ∷ h) = if test ev then suc (count test h) else count test h

-- Whether the calling thread has its signals blocked, and whether it had when they were last blocked,
-- which is what `restore_signals` goes back to.
abbrev pub masks : History → Bool × Bool
masks [] = (false, false)
masks (Event.block_signals ∷ h) = (true, (masks h).0)
masks (Event.restore_signals ∷ h) = ((masks h).1, (masks h).1)
masks (_ ∷ h) = masks h

abbrev pub masked : History → Bool
masked h = (masks h).0

-- What was spawned, the newest first.
abbrev pub images : History → List Image
images [] = []
images (Event.posix_spawn image failed pid ∷ h) = image ∷ images h
images (_ ∷ h) = images h

-- The children that came to be, the newest first.
abbrev pub children : History → List ℕ
children [] = []
children (Event.posix_spawn image failed pid ∷ h) =
    if failed == 0 then pid ∷ children h else children h
children (_ ∷ h) = children h

-- The pipes that were opened, with their two ends, and the descriptors from which a whole report was
-- read, the newest first.
abbrev pub pipes : History → List (ℕ × ℕ)
pipes [] = []
pipes (Event.pipe (some ends) ∷ h) = ends ∷ pipes h
pipes (_ ∷ h) = pipes h

abbrev pub reported : History → List ℕ
reported [] = []
reported (Event.read_report fd n ∷ h) = if n ==ℤ pos 8 then fd ∷ reported h else reported h
reported (_ ∷ h) = reported h

-- The batons for which a thread was started that waits for their process, the newest first.
abbrev pub waited : History → List ℕ
waited [] = []
waited (Event.start Thread.waits baton ∷ h) = baton ∷ waited h
waited (_ ∷ h) = waited h

abbrev pub is_openpty : Event → Bool
is_openpty (Event.openpty _ _ _) = true
is_openpty _ = false

abbrev pub is_posix_spawn : Event → Bool
is_posix_spawn (Event.posix_spawn _ _ _) = true
is_posix_spawn _ = false

-- A child came to be.
abbrev pub is_started : Event → Bool
is_started (Event.posix_spawn _ failed _) = failed == 0
is_started _ = false

abbrev pub is_close_of : ℕ → Event → Bool
is_close_of fd (Event.close other) = other == fd
is_close_of fd _ = false

abbrev pub is_pipe_of : ℕ → Event → Bool
is_pipe_of fd (Event.pipe (some (reading, writing))) = reading == fd || writing == fd
is_pipe_of fd _ = false

-- The processes that were signalled, the last one first.
abbrev pub signalled : History → List (ℕ × ℤ)
signalled [] = []
signalled (Event.kill pid signal ∷ h) = (pid, signal) ∷ signalled h
signalled (_ ∷ h) = signalled h
