-- ===== src/MockNetwork/Conn/Passage.antt =====
-- core/network_mock.go: one direction of a pair of connections, from the `ConnMock` that sends to the
-- one that receives, over the two `connRoutine`s, each of which can carry it. All of them take their
-- steps in any order. A `purge` signal comes at any time and to any routine that listens: `Close`
-- and `Purge` send it to whichever of the two that listen to the channel is first. A `connRoutine` that
-- has received one carries nothing until it listens again; the goroutines of the other direction, for
-- which it waits too, can only make it wait for longer. A program that panics, as one does
-- that sends on a channel after it is closed, takes no further step.
use pnf.Base.{◌≡◌, ◌≢◌, Bool, some, List, [], ◌∷◌, ◌++◌}
use pnf.Base.Outcome.{ok}
use pnf.Event.{FrameBundle}
use pnf.TcpConn.{Bytes, Payload}
use pnf.MockNetwork.Conn.{
  ContainerCodec, Arrival, data_in, bundle_in, running, closed, ConnMock, purge_signal, user_data,
  user_bundle, from_net, routine, Router, carry, listening, receive_purge, conn_routine_purge,
}

pub record Passage (E : Type 0) : Type 0 where
  pub sender : ConnMock E
  pub receiver : ConnMock E
  pub near : Router
  pub far : Router

-- what the two programs see of a step
pub data Label (E : Type 0) : Type 0 where
  sends : Arrival E → Label E
  internal : Label E
  receives : Arrival E → Label E

abbrev pub new_router : Router
new_router = record { mode = listening; carried = [] }

module _ {E : Type 0} where
  abbrev pub new_conn : ConnMock E
  new_conn = record { mode = running; sending = []; arrivals = [] }

  -- `makeConnMockPair`, one direction
  abbrev pub new_passage : Passage E
  new_passage = record {
    sender = new_conn;
    receiver = new_conn;
    near = new_router;
    far = new_router;
  }

module _ {E : Type 0} (codec : ContainerCodec (Payload E)) where
  pub data Step (l m : Passage E) : Label E → Type 0 where
    send_data :
        (b : Bytes) (c : ConnMock E)
        → l.sender.mode ≢ closed
        → routine codec (user_data b) l.sender ≡ ok c
        → m ≡ record l { sender = c }
        → Step l m (sends (data_in b))
    send_frame_bundle :
        (b : FrameBundle E) (c : ConnMock E)
        → l.sender.mode ≢ closed
        → routine codec (user_bundle b) l.sender ≡ ok c
        → m ≡ record l { sender = c }
        → Step l m (sends (bundle_in b))
    purge_sender :
        (b : Bool) (c : ConnMock E)
        → routine codec (purge_signal b) l.sender ≡ ok c
        → m ≡ record l { sender = c }
        → Step l m internal
    purge_receiver :
        (b : Bool) (c : ConnMock E)
        → routine codec (purge_signal b) l.receiver ≡ ok c
        → m ≡ record l { receiver = c }
        → Step l m internal
    carry_near :
        (xs : List Bytes) (b : Bytes) (ys : List Bytes)
        → l.near.mode ≡ listening
        → l.sender.sending ≡ xs ++ (b ∷ ys)
        → m ≡ record l { sender = record (l.sender) { sending = xs ++ ys }; near = carry b l.near }
        → Step l m internal
    carry_far :
        (xs : List Bytes) (b : Bytes) (ys : List Bytes)
        → l.far.mode ≡ listening
        → l.sender.sending ≡ xs ++ (b ∷ ys)
        → m ≡ record l { sender = record (l.sender) { sending = xs ++ ys }; far = carry b l.far }
        → Step l m internal
    arrive_near :
        (xs : List Bytes) (b : Bytes) (ys : List Bytes) (c : ConnMock E)
        → l.receiver.mode ≢ closed
        → l.near.carried ≡ xs ++ (b ∷ ys)
        → routine codec (from_net b) l.receiver ≡ ok c
        → m ≡ record l { receiver = c; near = record (l.near) { carried = xs ++ ys } }
        → Step l m internal
    arrive_far :
        (xs : List Bytes) (b : Bytes) (ys : List Bytes) (c : ConnMock E)
        → l.receiver.mode ≢ closed
        → l.far.carried ≡ xs ++ (b ∷ ys)
        → routine codec (from_net b) l.receiver ≡ ok c
        → m ≡ record l { receiver = c; far = record (l.far) { carried = xs ++ ys } }
        → Step l m internal
    purge_near :
        (b : Bool)
        → l.near.mode ≡ listening
        → m ≡ record l { near = receive_purge b l.near }
        → Step l m internal
    purge_far :
        (b : Bool)
        → l.far.mode ≡ listening
        → m ≡ record l { far = receive_purge b l.far }
        → Step l m internal
    purged_near :
        (r : Router)
        → conn_routine_purge l.near ≡ some r
        → m ≡ record l { near = r }
        → Step l m internal
    purged_far :
        (r : Router)
        → conn_routine_purge l.far ≡ some r
        → m ≡ record l { far = r }
        → Step l m internal
    receive :
        (xs : List (Arrival E)) (a : Arrival E) (ys : List (Arrival E))
        → l.receiver.mode ≢ closed
        → l.receiver.arrivals ≡ xs ++ (a ∷ ys)
        → m ≡ record l { receiver = record (l.receiver) { arrivals = xs ++ ys } }
        → Step l m (receives a)

  pub data Run : Passage E → List (Label E) → Passage E → Type 0 where
    done : {l : Passage E} → Run l [] l
    then_step :
        {l m n : Passage E} {x : Label E} {xs : List (Label E)}
        → Step l m x
        → Run m xs n
        → Run l (x ∷ xs) n
