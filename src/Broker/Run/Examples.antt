-- ===== src/Broker/Run/Examples.antt =====
-- Two devices and one link: device 0 sends three samples, device 1 is served the first two.
use ocudu_channel.Common.{
  ℕ, ◌*◌, ◌<◌, ◌≤◌, ◌≡◌, ◌≢◌, refl, [], ◌∷◌, some, arith, length, take, word_mod,
}
use ocudu_channel.Ring.{read, push, discard_before, reset, free_capacity}
use ocudu_channel.Broker.State.{Wiring, Relay, Outcome, done, payload, vanished}
use ocudu_channel.Broker.Puller.{pull_step}
use ocudu_channel.Broker.Server.{serve_step, measure_link, add_served}
use ocudu_channel.Broker.Run.{pulls, serves, Reach, here, next, initial}
use ocudu_channel.Broker.Run.Delivery.{delivered-exact, relay_sound, unread-read, add_served_bounds}

abbrev wires : Wiring
wires = record {
  link_count = 1;
  src_index = λ _. 0;
  dst_index = λ _. 1;
  batch = λ _. 2;
  rate = λ _. 1000;
  queue_samples = 8;
}

abbrev pulled : Relay ℕ → Outcome ℕ → Relay ℕ
pulled s o = pull_step wires 0 o s

abbrev served : Relay ℕ → Relay ℕ
served = serve_step 0 wires 1 done

abbrev landed : Relay ℕ
landed =
    pulled
      (pulled (pulled (pulled (pulled (initial 0 wires) done) done) (payload (7 ∷ 8 ∷ 9 ∷ []) 0))
        done)
      done

abbrev answered : Relay ℕ
answered = served (served (served (served (served (served (served (served landed)))))))

pulls_all : landed.received 0 ≡ 7 ∷ 8 ∷ 9 ∷ []
unfolding pull_step push discard_before initial reset free_capacity
pulls_all = refl

serves_two : answered.delivered 0 ≡ 7 ∷ 8 ∷ []
unfolding pull_step serve_step measure_link push discard_before initial reset free_capacity read
serves_two = refl

-- The three samples arrive.
landed-Reach : Reach 0 wires (initial 0 wires) landed
unfolding pull_step push discard_before initial reset free_capacity
landed-Reach =
    let start : Reach 0 wires (initial 0 wires) (initial 0 wires) = here in
    let asked = next start (pulls 0 done (omega arith) (omega arith)) in
    let sent = next asked (pulls 0 done (omega arith) (omega arith)) in
    let got = next sent (pulls 0 (payload (7 ∷ 8 ∷ 9 ∷ []) 0) (omega arith) (omega arith)) in
    let freed = next got (pulls 0 done (omega arith) (omega arith)) in
    next freed (pulls 0 done (omega arith) (omega arith))

turn :
    {s : Relay ℕ} → Reach 0 wires (initial 0 wires) s → Reach 0 wires (initial 0 wires) (served s)
turn r = next r (serves 1 done)

-- The server goes through its phases and hands on two of them.
answered-Reach : Reach 0 wires (initial 0 wires) answered
answered-Reach = turn (turn (turn (turn (turn (turn (turn (turn landed-Reach)))))))

delivered-exact_example :
    (answered.delivered 0 ≡ take (answered.links 0).cursor (answered.received 0))
    × ((answered.links 0).cursor ≤ length (answered.received 0))
delivered-exact_example = delivered-exact 0 wires 0 (omega arith) answered-Reach (omega arith)

relay_sound_example :
    (answered.stats.tx_sequence_gaps ≡ 0) × ((answered.servers 1).phase ≢ vanished)
relay_sound_example = relay_sound 0 wires 1 (omega arith) answered-Reach

unread-read_example : read 0 (answered.rings 0) 2 1 ≡ some (9 ∷ [])
unfolding pull_step serve_step measure_link push discard_before initial reset free_capacity read
unread-read_example =
    unread-read 0 wires 0 1 (omega arith) answered-Reach (omega arith) (omega arith) (omega arith)

add_served_bounds_example : (add_served 1000 900 150 < 1000) × (1050 * 1000000000 < word_mod)
add_served_bounds_example = add_served_bounds 1000 900 150 (omega arith) (omega arith) (omega arith)
