-- ===== src/Main/Types.antt =====
-- What is outside of the program, and the state of its objects.
use nut_dog.Prelude.{Option, Text, Dict, ℤ}
use nut_dog.Clock.{Time}
use nut_dog.Control.{ActualState}
use nut_dog.Nut.Client.{Peer, Session, Options}
use nut_dog.Metrics.{Metrics}
use nut_dog.Metrics.Polls.{PollMetrics}
use nut_dog.Effects.{Target}
use nut_dog.Effects.Wol.{Udp}
use nut_dog.Powerapi.{Server}

-- What net.DialTimeout returns: a connection, which is closed at once, ECONNREFUSED, or another error.
pub data Dialed : Type 0 where
  answered refused unanswered : Dialed

-- `now_at` is the clock as it is read at an entry of a map, inside of a loop; `F` is float64, with the parser
-- and the product that the metrics use, and 1.
pub record Outside (S E F : Type 0) : Type 0 where
  pub getenv : Text → Text
  pub peer : Peer S
  pub dial_tcp : Text → S → Dialed × S
  pub udp : Udp E S
  pub now : S → Time × S
  pub now_at : S → Text → Time
  pub unix_now : S → ℤ × S
  pub parse_float : Text → Option F
  pub times : F → F → F
  pub one : F

-- What the objects hold that `main` makes: the connection of the NUT client, with the outside at its
-- end, the metrics, and the power API.
pub record Machine (S F : Type 0) : Type 0 where
  pub net : Session S
  pub polls : PollMetrics F
  pub metrics : Metrics
  pub api : Option Server

-- upsPoll
pub record UpsPoll : Type 0 where
  pub addr : Text
  pub ups : Text
  pub opts : Options

-- funcProber, targets and shedUps of `wireLoads`
pub record Wiring (S : Type 0) : Type 0 where
  pub probes : Dict (S → ActualState × S)
  pub targets : Dict Target
  pub shed_ups : Dict Text
