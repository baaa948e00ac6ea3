-- ===== src/Journal/Tests.antt =====
-- A write that times out, is recovered after a reload, and is accepted.
use mathlib.Core.List.{Memᴰ}
use reinforcement_learning_c.Prelude.{ℕ, true, List, [], ◌∷◌, none, ◌≡◌, refl, All}
use reinforcement_learning_c.Preview.Requests.{is_key}
use reinforcement_learning_c.Journal.{
  Post, Request, Hook, Event, mount, unmount, start, recover, actor_resolved, sent, failed, timeout,
  api, actor, verdict, clear, execute, settle, on_verdict, fail, is_other_actor, post, on_actor,
  on_sent, on_failed, restore, on_mount, on_start, on_recover, step, run,
}
use reinforcement_learning_c.Journal.Once.{is_used, IsFresh, new_hook, same_key_same_body}
use reinforcement_learning_c.Journal.Retain.{IsSettled, failed-IsSettled, mount_never_posts}
use reinforcement_learning_c.Journal.Hold.{Same, IsKnown, unresolved_action_stays}

hooks : Unit {0}
unfolding is_key verdict clear execute settle on_verdict fail is_other_actor post on_actor on_sent
    on_failed restore on_mount on_start on_recover step run is_used new_hook
hooks = tt

abbrev events : List (Event ℕ)
events =
    mount true
    ∷ start "k1" 7 true
    ∷ actor_resolved "u" true
    ∷ timeout
    ∷ unmount
    ∷ mount true
    ∷ recover
    ∷ actor_resolved "u" true
    ∷ sent
    ∷ []

abbrev first_post : Post ℕ
first_post = record { key = "k1"; actor = "u"; body = 7 }

abbrev finished : Hook ℕ
finished = run events (new_hook none)

posted_twice : finished.posts ≡ first_post ∷ first_post ∷ []
unfolding hooks
posted_twice = refl

fresh : IsFresh events (new_hook none)
unfolding hooks
fresh = (tt, (refl, (tt, (tt, (tt, (tt, (tt, (tt, (tt, tt)))))))))

same_key_same_body_example : ◌≡◌ {A = ℕ} 7 7
unfolding hooks
same_key_same_body_example =
    same_key_same_body none events first_post first_post fresh (Memᴰ.head refl)
      (Memᴰ.tail (Memᴰ.head refl)) refl

abbrev running : Hook ℕ
running = run (mount true ∷ start "k1" 7 true ∷ []) (new_hook none)

abbrev asked : Request ℕ
asked = record { action = record { key = "k1"; body = 7; actor_id = none }; stage = actor }

failed-IsSettled_example : IsSettled (api 409) true running (step (failed (api 409) true) running)
unfolding hooks
failed-IsSettled_example = failed-IsSettled (api 409) true asked running refl refl

mount_never_posts_example : (run (mount true ∷ timeout ∷ []) running).posts ≡ running.posts
mount_never_posts_example = mount_never_posts true (timeout ∷ []) running ((λ x. x), tt)

unresolved_action_stays_example :
    Same {B = ℕ} "k1" 7 (run (timeout ∷ start "k2" 8 true ∷ []) running).active
    × All (IsKnown "k1" 7 running.posts) (run (timeout ∷ start "k2" 8 true ∷ []) running).posts
unfolding hooks
unresolved_action_stays_example =
    unresolved_action_stays (timeout ∷ start "k2" 8 true ∷ []) running asked.action refl
      (refl, refl) (tt, (tt, tt))
