-- ===== src/Tracking/Worker/Posts.antt =====
-- Why no task is forgotten by the thread of tmp/TeacherRunningImpl.h.
use libsimple.Base.{length, ◌+◌, ◌≤◌, ◌≡◌}
use libsimple.Tracking.Views.{Working}

-- Every task that is left has a post of its own.
abbrev pub IsPosted : {C : Type 0} → Working C → Type 0
IsPosted w = length w.tasks ≤ w.posts

-- As many tasks as posts have come.
abbrev Paired : {C : Type 0} → Working C → Working C → Type 0
Paired w w' = length w'.tasks + w.posts ≡ w'.posts + length w.tasks
