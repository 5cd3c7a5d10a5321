-- ===== src/Broker/Server/Moves.antt =====
-- What a step of a server may change: its own locals, and one of its incoming links.
use ocudu_channel.Common.{
  ℕ, ◌<◌, ◌≡◌, ◌≢◌, refl, sym, ap, ◌∙◌, subst, Bool, List, [], length, arith, take, append-nil,
  update, update_self, update_ne, ℕ_discrete,
}
use ocudu_channel.Broker.State.{Wiring, Link, Relay, Stats, Server}
use ocudu_channel.Broker.Puller.Release.{LinkOk}
use ocudu_channel.Broker.Invariant.{EdgeOk, ServerOk, Inv}
use ocudu_channel.Broker.Frame.{Frame, ServerOk-Frame}

module _ {ℓ} {A : Type ℓ} (blank : A) (w : Wiring) (d : ℕ) where
  module _ {s : Relay A} (inv : Inv blank w s) where
    pub counted : (k : ℕ) → (s.rings k).next_sequence ≡ length (s.received k)
    counted k = (inv.ring_ok k).holds.counted

    -- A step that changes the server alone.
    pub quiet-Inv :
        (v : Server A) (stats : Stats) (stop : Bool)
        → stats.tx_sequence_gaps ≡ s.stats.tx_sequence_gaps
        → ServerOk w s d v
        → Inv blank w (record s { servers = update s.servers d v; stats = stats; stop = stop })
    quiet-Inv v stats stop gaps ok = record {
      ring_ok = λ k. record { valid = (inv.ring_ok k).valid; holds = (inv.ring_ok k).holds };
      edge_ok = λ i small. record {
        in_ring = (inv.edge_ok i small).in_ring;
        exact = (inv.edge_ok i small).exact;
      };
      server_ok = others;
      no_gaps = gaps ∙ inv.no_gaps;
    }
      where
        others :
            (e : ℕ)
            → ServerOk w
                (record s { servers = update s.servers d v; stats = stats; stop = stop })
                e
                (update s.servers d v e)
        others e = elim (ℕ_discrete e d) [
          | yes here ↦ subst (ServerOk w next e) (sym (at here)) (
              subst (λ k. ServerOk w next k v) (sym here)
                (ServerOk-Frame w d (still d) v counted ok))
          | no away ↦
              subst (ServerOk w next e) (sym (update_ne s.servers d v e away))
                (ServerOk-Frame w e (still e) (s.servers e) counted (inv.server_ok e))
        ]
          where
            next : Relay A
            next = record s { servers = update s.servers d v; stats = stats; stop = stop }

            still : (k : ℕ) → Frame w k s next
            still k = record {
              links_same = λ i mine. refl;
              next_grows = λ j. omega arith;
              received_grows = λ j. ([], sym (append-nil (s.received j)));
            }

            at : e ≡ d → update s.servers d v e ≡ v
            at here = ap (update s.servers d v) here ∙ update_self s.servers d v

    -- A step that also moves one incoming link.
    pub link-Inv :
        (i : ℕ) (l : Link) (v : Server A) (stats : Stats) (delivered : ℕ → List A)
        → i < w.link_count
        → w.dst_index i ≡ d
        → stats.tx_sequence_gaps ≡ s.stats.tx_sequence_gaps
        → ((j : ℕ) → j ≢ i → delivered j ≡ s.delivered j)
        → LinkOk (s.rings (w.src_index i)) l
        → delivered i ≡ take l.cursor (s.received (w.src_index i))
        → ServerOk w (record s { links = update s.links i l }) d v
        → Inv blank w (record s {
          links = update s.links i l;
          servers = update s.servers d v;
          stats = stats;
          delivered = delivered;
        })
    link-Inv i l v stats delivered small mine gaps same ok exact server = record {
      ring_ok = λ k. record { valid = (inv.ring_ok k).valid; holds = (inv.ring_ok k).holds };
      edge_ok = edges;
      server_ok = servers;
      no_gaps = gaps ∙ inv.no_gaps;
    }
      where
        moved : Relay A
        moved = record s { links = update s.links i l }

        next : Relay A
        next = record s {
          links = update s.links i l;
          servers = update s.servers d v;
          stats = stats;
          delivered = delivered;
        }

        edges : (j : ℕ) → j < w.link_count → EdgeOk w next j
        edges j within = elim (ℕ_discrete j i) [
          | yes here ↦ subst (EdgeOk w next) (sym here) (record {
            in_ring = rw (update_self s.links i l) ok;
            exact = rw (update_self s.links i l) exact;
          })
          | no away ↦ record {
            in_ring = rw (update_ne s.links i l j away) (inv.edge_ok j within).in_ring;
            exact = rw (update_ne s.links i l j away) (same j away ∙ (inv.edge_ok j within).exact);
          }
        ]

        own : Frame w d moved next
        own = record {
          links_same = λ j at. refl;
          next_grows = λ j. omega arith;
          received_grows = λ j. ([], sym (append-nil (s.received j)));
        }

        other : (e : ℕ) → e ≢ d → Frame w e s next
        other e away = record {
          links_same =
              λ j at. update_ne s.links i l j (λ hit. away (sym at ∙ ap w.dst_index hit ∙ mine));
          next_grows = λ j. omega arith;
          received_grows = λ j. ([], sym (append-nil (s.received j)));
        }

        servers : (e : ℕ) → ServerOk w next e (update s.servers d v e)
        servers e = elim (ℕ_discrete e d) [
          | yes here ↦
              subst (ServerOk w next e)
                (sym (ap (update s.servers d v) here ∙ update_self s.servers d v))
                (subst (λ k. ServerOk w next k v) (sym here)
                  (ServerOk-Frame w d own v counted server))
          | no away ↦
              subst (ServerOk w next e) (sym (update_ne s.servers d v e away))
                (ServerOk-Frame w e (other e away) (s.servers e) counted (inv.server_ok e))
        ]
