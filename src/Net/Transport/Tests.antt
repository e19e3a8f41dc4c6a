-- ===== src/Net/Transport/Tests.antt =====
-- A session that moves to a second server, and the theorem at it.
use common_network.Prelude.{
  ℕ, ◌≡◌, refl, sym, inl, true, false, List, [], ◌∷◌, length, none, some, arith,
}
use mathlib.Core.Bool.{false≢true}
use common_network.Prelude.Dict.{lookup, insert}
use common_network.Speculative.Session
use common_network.Net.Server
use common_network.Net.Transport
use common_network.Net.Transport.{World, Sent, sent, raised, stuck, reply_lost, fine, restarted}
use common_network.Net.Transport.Cut.{IsCut, truncate-IsSession}
use common_network.Net.Transport.Forward.{IsSession, IsForwarded, forward-IsForwarded}

abbrev two_servers : Transport.Transport
two_servers = record {
  count = 2;
  is_open = false;
  active = 0;
  history = [];
  dead = [];
  failovers = [];
}

-- The first server is opened and answers; then it loses its sessions; the second takes over.
abbrev lost_once : World
lost_once = record { slots = λ i. none; fates = fine ∷ fine ∷ restarted ∷ [] }

two_servers-IsSession : IsSession length [] two_servers lost_once
two_servers-IsSession = record {
  slots = λ i. tt;
  kept = λ many. refl;
  ready = λ on. absurd (false≢true on);
  closed = λ off. refl;
}

forward-IsForwarded_example :
    IsForwarded length []
      (5 ∷ 6 ∷ [])
      []
      (Transport.forward length 100 1 0 (5 ∷ 6 ∷ []) two_servers lost_once)
forward-IsForwarded_example =
    forward-IsForwarded length 100 1 [] (5 ∷ 6 ∷ []) two_servers lost_once (omega arith)
      two_servers-IsSession

-- The replies, and the moves from one server to another
abbrev replies_of : Sent → List ℕ × List (ℕ × ℕ)
replies_of (sent t w out) = (out, t.failovers)
replies_of (raised t w e) = ([], [])
replies_of stuck = ([], [])

moved_once :
    replies_of (Transport.forward length 100 1 0 (5 ∷ 6 ∷ []) two_servers lost_once)
    ≡ (1 ∷ 2 ∷ [], (0, 1) ∷ [])
unfolding Transport.forward Transport.ensure_open Transport.first_alive Transport.send_pieces
    Transport.pieces_of Transport.send Transport.forward_slot Transport.recover Transport.try_all
    Transport.try_one Transport.replay Server.forward Server.open_session Session.forward
    Session.replies lookup insert
moved_once = refl

-- One server holds three positions, which are cut to two.
abbrev on_first : Transport.Transport
on_first = record { count = 1; is_open = true; active = 0; history = []; dead = []; failovers = [] }

abbrev three_held : World
three_held = record {
  slots = λ i. some (record { tokens = 5 ∷ 6 ∷ 7 ∷ []; last = none });
  fates = fine ∷ [];
}

three_held-IsSession : IsSession length (5 ∷ 6 ∷ 7 ∷ []) on_first three_held
three_held-IsSession = record {
  slots = λ i. tt;
  kept = λ many. absurd (omega arith);
  ready = λ on. (record { tokens = 5 ∷ 6 ∷ 7 ∷ []; last = none }, (refl, tt, inl refl));
  closed = λ off. absurd (false≢true (sym off));
}

truncate-IsSession_example :
    let r = Transport.truncate length 100 2 on_first three_held in
    IsCut length (5 ∷ 6 ∷ []) r.transport r.world r.error
truncate-IsSession_example =
    truncate-IsSession length 100 2 (5 ∷ 6 ∷ 7 ∷ []) on_first three_held three_held-IsSession
