-- ===== src/Mutex.antt =====
-- src/mutex.c. A `mutex_t` wraps one mutex of the platform (a recursive pthread mutex), which is
-- not part of this repository: the model keeps the calls made on it, oldest first.
use libsimple.Base.{List, [], ◌∷◌, ◌++◌}

-- The platform call that each function makes: `pthread_mutex_init`, `_lock`, `_unlock`, `_destroy`.
pub data MutexCall : Type 0 where
  init lock unlock destroy : MutexCall

abbrev pub Mutex : Type 0
Mutex = List MutexCall

-- simple_mutex_create
abbrev pub mutex_create : Mutex
mutex_create = init ∷ []

-- simple_mutex_lock
abbrev pub mutex_lock : Mutex → Mutex
mutex_lock m = m ++ (lock ∷ [])

-- simple_mutex_unlock
abbrev pub mutex_unlock : Mutex → Mutex
mutex_unlock m = m ++ (unlock ∷ [])

-- simple_mutex_destroy
abbrev pub mutex_destroy : Mutex → Mutex
mutex_destroy m = m ++ (destroy ∷ [])
