-- ===== src/Tracking/Tasks.antt =====
-- tmp/ptz_oper.h: what the camera mount is asked to do. A task is built for a mount that is there,
-- and its handler is the calls that it makes.
use libsimple.Base.{
  ℕ, Bool, true, false, Option, none, some, List, [], ◌∷◌, ◌++◌, ◌==◌, if◌then◌else◌,
}
use libsimple.Base.Int.{ℤ}

-- the calls of the library of the mount, and the sleeping in between
pub data PtzCall : Type 0 where
  ptz_left ptz_right ptz_up ptz_down ptz_zoom_tele ptz_zoom_wide : ℕ → PtzCall
  ptz_stop ptz_zoom_stop : PtzCall
  sleep : ℕ → PtzCall
  location_center : ℤ × ℤ → ℤ × ℤ → ℕ → PtzCall
  ptz_zoom_set : ℤ → PtzCall
  ptz_set_absolute_position : ℤ → ℤ → ℕ → PtzCall

-- Opaque_ptz_move, Opaque_ptz_zoom, Opaque_ptz_center and Opaque_ptz_reset; a quotient of two `int`s
-- stands for a `double` between them.
pub data Task : Type 0 where
  move : ℕ → ℕ → ℕ → Task
  zoom : Bool → ℕ → ℕ → Task
  center : ℤ × ℤ → ℤ × ℤ → ℕ → Task
  reset : ℤ → ℤ → ℤ → Task

-- task_ptz_move, task_ptz_zoom, task_ptz_center and task_ptz_reset: a null pointer without a mount
unfoldable pub task_ptz : Bool → Task → Option Task
task_ptz has_ptz t = if has_ptz then some t else none

-- the switch of task_ptz_move_handle
unfoldable pub move_call : ℕ → ℕ → List PtzCall
move_call dir speed =
    if dir == 1
    then ptz_left speed ∷ []
    else if dir == 2
    then ptz_right speed ∷ []
    else if dir == 3
    then ptz_up speed ∷ []
    else if dir == 4
    then ptz_down speed ∷ []
    else []

-- `t->handle(t)`
unfoldable pub handle_task : Task → List PtzCall
unfolding move_call
handle_task (move dir speed timeout) = move_call dir speed ++ (sleep timeout ∷ ptz_stop ∷ [])
handle_task (zoom true speed timeout) = ptz_zoom_tele speed ∷ sleep timeout ∷ ptz_zoom_stop ∷ []
handle_task (zoom false speed timeout) = ptz_zoom_wide speed ∷ sleep timeout ∷ ptz_zoom_stop ∷ []
handle_task (center hr vr speed) = location_center hr vr speed ∷ []
handle_task (reset h v z) = ptz_zoom_set z ∷ ptz_set_absolute_position h v 30 ∷ []
