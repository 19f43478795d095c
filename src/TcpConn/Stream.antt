-- ===== src/TcpConn/Stream.antt =====
-- One direction of a connection: the goroutines of the end that sends and of the end that receives,
-- which may take their steps in any order, and the bytes between them. A read takes any part of the
-- bytes that have been written: TCP keeps their order and not their boundaries.
use pnf.Base.{◌≡◌, ◌≢◌, ℕ, Option, none, some, List, [], ◌∷◌, ◌++◌}
use pnf.Event.{FrameBundle}
use pnf.TcpConn.{
  Bytes, Payload, StreamCodec, Inbox, empty_inbox, put_in, take_in, pass_on, give, enqueue, dequeue,
  data_payload, bundle_payload, write_routine, Reader, decode_once,
}

-- `makeTcpConn` starts with everything empty. A routine that has ended has no state.
pub record Link (E Encoder Decoder : Type 0) : Type 0 where
  pub outbox : List (Payload E)
  pub writer : Option Encoder
  pub wire : Bytes
  pub reader : Option (Reader Decoder)
  pub data_inbox : Inbox Bytes
  pub bundle_inbox : Inbox (FrameBundle E)

-- what the two programs see of a step
pub data Label (E : Type 0) : Type 0 where
  sends : Payload E → Label E
  internal : Label E
  gives_data : Bytes → Label E
  gives_bundle : FrameBundle E → Label E

module _ {E Encoder Decoder : Type 0} (codec : StreamCodec (Payload E) Encoder Decoder) where
  abbrev pub new_link : Link E Encoder Decoder
  new_link = record {
    outbox = [];
    writer = some codec.new_encoder;
    wire = [];
    reader = some (record { unread = []; decoder = codec.new_decoder });
    data_inbox = empty_inbox;
    bundle_inbox = empty_inbox;
  }

  pub data Step (l m : Link E Encoder Decoder) : Label E → Type 0 where
    send_data :
        (b : Bytes)
        → m ≡ record l { outbox = enqueue (data_payload b) l.outbox }
        → Step l m (sends (data_payload b))
    send_frame_bundle :
        (b : FrameBundle E)
        → m ≡ record l { outbox = enqueue (bundle_payload b) l.outbox }
        → Step l m (sends (bundle_payload b))
    write :
        (p : Payload E) (rest : List (Payload E)) (e : Encoder) (failed : Option ℕ)
        → dequeue l.outbox ≡ some (p, rest)
        → l.writer ≡ some e
        → m ≡ record l {
          outbox = rest;
          writer = (write_routine codec p failed e).1;
          wire = l.wire ++ (write_routine codec p failed e).0;
        }
        → Step l m internal
    read_data :
        (chunk rest : Bytes) (r r' : Reader Decoder) (p : Payload E) (inbox : Inbox Bytes)
        → l.wire ≡ chunk ++ rest
        → chunk ≢ []
        → l.reader ≡ some r
        → decode_once codec chunk r ≡ some (p, r')
        → p.bundle ≡ none
        → put_in p.content l.data_inbox ≡ some inbox
        → m ≡ record l { wire = rest; reader = some r'; data_inbox = inbox }
        → Step l m internal
    read_bundle :
        (chunk rest : Bytes) (r r' : Reader Decoder) (p : Payload E) (b : FrameBundle E)
        (inbox : Inbox (FrameBundle E))
        → l.wire ≡ chunk ++ rest
        → chunk ≢ []
        → l.reader ≡ some r
        → decode_once codec chunk r ≡ some (p, r')
        → p.bundle ≡ some b
        → put_in b l.bundle_inbox ≡ some inbox
        → m ≡ record l { wire = rest; reader = some r'; bundle_inbox = inbox }
        → Step l m internal
    read_error :
        (chunk rest : Bytes) (r : Reader Decoder)
        → l.wire ≡ chunk ++ rest
        → chunk ≢ []
        → l.reader ≡ some r
        → decode_once codec chunk r ≡ none
        → m ≡ record l { wire = rest; reader = none }
        → Step l m internal
    take_data :
        (i : Inbox Bytes)
        → take_in l.data_inbox ≡ some i
        → m ≡ record l { data_inbox = i }
        → Step l m internal
    pass_data :
        (i : Inbox Bytes)
        → pass_on l.data_inbox ≡ some i
        → m ≡ record l { data_inbox = i }
        → Step l m internal
    recv_data :
        (b : Bytes) (i : Inbox Bytes)
        → give l.data_inbox ≡ some (b, i)
        → m ≡ record l { data_inbox = i }
        → Step l m (gives_data b)
    take_bundle :
        (i : Inbox (FrameBundle E))
        → take_in l.bundle_inbox ≡ some i
        → m ≡ record l { bundle_inbox = i }
        → Step l m internal
    pass_bundle :
        (i : Inbox (FrameBundle E))
        → pass_on l.bundle_inbox ≡ some i
        → m ≡ record l { bundle_inbox = i }
        → Step l m internal
    recv_frame_bundle :
        (b : FrameBundle E) (i : Inbox (FrameBundle E))
        → give l.bundle_inbox ≡ some (b, i)
        → m ≡ record l { bundle_inbox = i }
        → Step l m (gives_bundle b)

  pub data Run : Link E Encoder Decoder → List (Label E) → Link E Encoder Decoder → Type 0 where
    done : {l : Link E Encoder Decoder} → Run l [] l
    then_step :
        {l m n : Link E Encoder Decoder} {x : Label E} {xs : List (Label E)}
        → Step l m x
        → Run m xs n
        → Run l (x ∷ xs) n
