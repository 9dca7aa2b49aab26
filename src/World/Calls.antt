-- ===== src/World/Calls.antt =====
-- The calls of Compose that change what runs, among the events of a history.
use compose_lock.Prelude.{◌≡◌, refl, arith, ◌∙◌, List, [], ◌∷◌, true}
use compose_lock.World.{
  World, Event, History, up, down, pulled, git, state_saved, state_loaded, clock_read, slept,
  project_loaded, snapshot_taken, lock_tried, lock_released, pinged, watched,
}
use compose_lock.World.Keeping.{Looks, is_look}
use compose_lock.World.Acting.{Saves, Acts}

-- The calls of Compose that change what runs.
unfoldable pub compose_calls : History → List Event
compose_calls [] = []
compose_calls (up n t s ∷ es) = up n t s ∷ compose_calls es
compose_calls (down n ∷ es) = down n ∷ compose_calls es
compose_calls (pulled n ∷ es) = pulled n ∷ compose_calls es
compose_calls (e ∷ es) = compose_calls es

pub compose_calls-look :
    (e : Event) (es : History) → is_look e ≡ true → compose_calls (e ∷ es) ≡ compose_calls es
unfolding compose_calls is_look
compose_calls-look (git c) es q = refl
compose_calls-look state_loaded es q = refl
compose_calls-look clock_read es q = refl
compose_calls-look slept es q = refl
compose_calls-look (project_loaded n) es q = refl
compose_calls-look (snapshot_taken n) es q = refl
compose_calls-look lock_tried es q = refl
compose_calls-look lock_released es q = refl
compose_calls-look pinged es q = refl
compose_calls-look (state_saved s) es q = refl
compose_calls-look (pulled n) es q = ground (arith, q)
compose_calls-look (up n t s) es q = ground (arith, q)
compose_calls-look (down n) es q = ground (arith, q)
compose_calls-look (watched c o) es q = refl

module _ (before : List Event) where
  unfoldable pub IsUntouched : World → Type 0
  IsUntouched w = compose_calls w.history ≡ before

  pub IsUntouched-acts : Acts (λ _. Unit) IsUntouched
  unfolding IsUntouched compose_calls
  IsUntouched-acts = record {
    saves = record {
      looks = record { look = λ e w q p. compose_calls-look e w.history q ∙ p };
      memory = λ w p. tt;
      stored = λ w p. tt;
      put = λ s w q p. p;
      save_new = λ s w q p. p;
      save_lost = λ s w p. p;
    };
    move = λ c t w p. p;
  }

-- Nothing but the history and the state in memory has changed since `w`, and Compose was not called.
pub record IsIdle (w w' : World) : Type 0 where
  pub same_disk : w'.disk ≡ w.disk
  pub same_memory : w'.st ≡ w.st
  pub same_tree : w'.tree ≡ w.tree
  pub same_calls : compose_calls w'.history ≡ compose_calls w.history

pub IsIdle-looks : (w : World) → Looks (IsIdle w)
IsIdle-looks w = record {
  look = λ e w' q p. record {
    same_disk = p.same_disk;
    same_memory = p.same_memory;
    same_tree = p.same_tree;
    same_calls = compose_calls-look e w'.history q ∙ p.same_calls;
  };
}

-- Nothing but the history and the state has changed since `w`, and Compose was not called.
pub record IsNoted (w w' : World) : Type 0 where
  pub same_tree : w'.tree ≡ w.tree
  pub same_calls : compose_calls w'.history ≡ compose_calls w.history

pub IsNoted-saves : (w : World) → Saves (λ _. Unit) (IsNoted w)
unfolding compose_calls
IsNoted-saves w = record {
  looks = record {
    look = λ e w' q p. record {
      same_tree = p.same_tree;
      same_calls = compose_calls-look e w'.history q ∙ p.same_calls;
    };
  };
  memory = λ w' p. tt;
  stored = λ w' p. tt;
  put = λ s w' q p. record { same_tree = p.same_tree; same_calls = p.same_calls };
  save_new = λ s w' q p. record { same_tree = p.same_tree; same_calls = p.same_calls };
  save_lost = λ s w' p. record { same_tree = p.same_tree; same_calls = p.same_calls };
}
