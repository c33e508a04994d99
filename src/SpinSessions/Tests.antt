-- ===== src/SpinSessions/Tests.antt =====
-- The theorems about spin sessions at a small table.
use renaissance_api.Common.{suc, ◌≡◌, refl, none, some, [], ◌∷◌}
use renaissance_api.Common.Int.{pos}
use renaissance_api.Common.Fresh.{max_key, max_key-fresh}
use renaissance_api.Common.Action.{err}
use renaissance_api.SpinSessions.{
  SpinSession, SessionDb, SessionIds, pending, completed, xp, no_reward, find_session, complete,
  update_refused,
}
use renaissance_api.SpinSessions.Lifecycle.{IsFresh, step, refers_it, find_session-step}

abbrev next_id : SessionIds
next_id rows = suc (max_key (λ s. s.id) rows)

next_id-IsFresh : IsFresh next_id
next_id-IsFresh rows = max_key-fresh (λ s. s.id) rows

abbrev waiting : SpinSession
waiting = record {
  id = 1;
  user_id = 7;
  stake_amount = pos 10;
  reward_type = no_reward;
  reward_value = pos 0;
  status = pending;
  tx_reference = none;
}

abbrev done : SpinSession
done = record waiting { id = 2; status = completed }

abbrev sample : SessionDb
sample = record { sessions = waiting ∷ done ∷ [] }

find_session-step_example :
    find_session 1 (step next_id (refers_it 1 99) sample).sessions
    ≡ some (record waiting { tx_reference = some 99 })
find_session-step_example =
    find_session-step next_id next_id-IsFresh (refers_it 1 99) 1 waiting sample refl

-- The hook refuses the completion of a pending session.
not_completed : complete 1 xp (pos 5) none sample ≡ (err update_refused, sample)
unfolding complete
not_completed = refl
