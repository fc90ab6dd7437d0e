-- ===== src/Contents/Tests.antt =====
-- Two states that add what is pushed, one of them kept through the cache.
use guinea.Base.{ℕ, ◌+◌, ◌≡◌, refl, none, List, [], ◌∷◌}
use guinea.Contents.{
  Contents, listeners_of, snapshot_states, restore_states, ensure, state, push, subscribe, Op,
  reads, seeds, pushes, subscribes, do_op, run,
}
use guinea.Contents.Slots.{IsSound}
use guinea.Contents.Replay.{states, replay, run-replay}
use guinea.Contents.Restoring.{restore_states-snapshot_states}

abbrev nothing_held : Contents
nothing_held = record {
  cells = λ ty. none;
  values = λ slot. 0;
  next_slot = 0;
  next_subscriber = 0;
  marks = [];
}

abbrev adds : ℕ → ℕ → ℕ → ℕ
adds ty old update = old + update

abbrev starts : ℕ → ℕ
starts ty = 10

abbrev calls : List Op
calls = reads 1 ∷ subscribes 1 5 ∷ pushes 1 2 ∷ seeds 2 30 ∷ pushes 2 4 ∷ pushes 1 3 ∷ []

abbrev held : Contents
held = run starts adds calls nothing_held

held-state : state starts adds 1 held ≡ 15
unfolding run do_op ensure push subscribe
held-state = refl

run-replay_example :
    IsSound held
    × ((t : ℕ)
        → state starts adds t held ≡ replay starts adds calls (states starts adds nothing_held) t)
run-replay_example =
    run-replay starts adds calls nothing_held
      ((λ ty c h. absurd (cc h)), (λ ty o c d h. absurd (cc h)))

restore_states-snapshot_states_example :
    (state starts adds 1
        (restore_states (snapshot_states held) (record nothing_held { values = held.values }))
      ≡ 15)
    × (listeners_of 1
          (restore_states (snapshot_states held) (record nothing_held { values = held.values }))
        ≡ [])
unfolding run do_op ensure push subscribe
restore_states-snapshot_states_example =
    restore_states-snapshot_states starts adds held (record nothing_held { values = held.values }) 1
      refl
