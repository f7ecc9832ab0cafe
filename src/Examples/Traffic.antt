-- ===== src/Examples/Traffic.antt =====
-- The theorems on messages and on clients, applied.
use ndnpaxos.Prelude.{ℕ, ◌-◌, ◌≡◌, refl, inr, List, [], ◌∷◌, arith, length, replicate, ok, fault}
use ndnpaxos.Types.{Mode, Message}
use ndnpaxos.Captain.State.{Captain, dum, new_captain}
use ndnpaxos.Commo.{Handler}
use ndnpaxos.Commo.Wire.{Codec, encode, deal_msg, deal_msg-encode, deal_msg_unknown}
use ndnpaxos.Client.{Request, Client, new_client}
use ndnpaxos.Client.Mix.{Input, issue_all, count_type, one_in_ten}
use ndnpaxos.Examples.Data.{node, prepare_of}

abbrev pub some_prepare : Message
some_prepare = Message.prepare (prepare_of 1 0)

-- A codec that knows one message.
abbrev pub one_message : Codec
one_message = record { serialize = λ m. 7 ∷ []; parse = λ type bytes. some_prepare }

abbrev pub ignore : Handler ℕ
ignore m name c = ok c

abbrev pub fresh : Captain ℕ
fresh = new_captain Mode.basic (node 1) 1 0

deal_msg-encode_example :
    deal_msg one_message ignore (encode one_message some_prepare) dum fresh ≡ ok fresh
deal_msg-encode_example = deal_msg-encode one_message ignore some_prepare dum fresh refl

deal_msg_unknown_example : deal_msg one_message ignore (7 ∷ b'9' ∷ []) dum fresh ≡ fault
deal_msg_unknown_example =
    deal_msg_unknown one_message ignore (7 ∷ b'9' ∷ []) dum fresh (λ front ch e. inr (ground arith))

abbrev input : Input
input = record { client_id = 3; now = 100; random = 47 }

one_in_ten_example :
    (rs : List Request) × (d : Client) × (issue_all (replicate 10 input) (new_client 5 90)
      ≡ ok (rs, d))
    × (length rs ≡ 10)
    × (count_type (1 - (new_client 5 90).write_or_read) rs ≡ 1)
unfolding new_client
one_in_ten_example =
    one_in_ten (replicate 10 input) (new_client 5 90) (omega arith) (omega arith) (omega arith) refl
      refl (omega arith)
