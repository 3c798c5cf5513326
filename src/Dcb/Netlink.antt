-- ===== src/Dcb/Netlink.antt =====
-- `DcbConfig.check_error` and the receive loop of `DcbConfig.send_and_receive`, of
-- os_net_config/dcb_config.py.
use os_net_config.Base.{
  ℕ, zero, suc, ◌-◌, ◌≡◌, refl, ◌∙◌, Bool, false, Option, none, some, List, [], ◌∷◌, arith,
  if◌then◌else◌, ◌==◌, nat_eq, str_eq, option_str_eq, take, find,
}

-- The header of a netlink message, with what the message carries.
pub record NetlinkMessage {ℓ} (A : Type ℓ) : Type ℓ where
  pub sequence_number : ℕ
  pub msg_type : ℕ
  pub payload : A

-- `netlink.NLMSG_ERROR`
abbrev pub nlmsg_error : ℕ
nlmsg_error = 2

-- `DCB_MAX_RETRIES`
abbrev pub dcb_max_retries : ℕ
dcb_max_retries = 3

-- How the call ends. `waiting` is a read that no message answers.
pub data Reply {ℓ} (A : Type ℓ) : Type ℓ where
  received : NetlinkMessage A → Reply A
  dcb_error : Reply A
  waiting : Reply A

module _ {ℓ} {A : Type ℓ} where
  -- `check_error`; `none` is the result -1, for another sequence number.
  unfoldable pub check_error : NetlinkMessage A → ℕ → Option ℕ
  check_error msg seq =
      if msg.sequence_number == seq
      then if msg.msg_type == nlmsg_error then some nlmsg_error else some msg.msg_type
      else none

  -- The body of the loop once a message is read: `more` goes on reading.
  unfoldable pub after_read : NetlinkMessage A → ℕ → Reply A → Reply A
  after_read r_msg seq more = elim (check_error r_msg seq) [
    | none ↦ more
    | some err ↦ if err == nlmsg_error then dcb_error else received r_msg
  ]

  -- The loop with `retries` reads left; `last` is `r_msg` of the round before.
  unfoldable pub receive : ℕ → ℕ → NetlinkMessage A → List (NetlinkMessage A) → Reply A
  receive zero seq last replies = received last
  receive (suc retries) seq last [] = waiting
  receive (suc retries) seq last (r_msg ∷ replies) =
      after_read r_msg seq (receive retries seq r_msg replies)

  -- The call as it reads the messages in the order of their arrival.
  unfoldable pub send_and_receive : ℕ → List (NetlinkMessage A) → Reply A
  send_and_receive seq [] = waiting
  send_and_receive seq (r_msg ∷ replies) =
      after_read r_msg seq (receive (dcb_max_retries - 1) seq r_msg replies)

  abbrev pub answers : ℕ → NetlinkMessage A → Bool
  answers seq msg = msg.sequence_number == seq

  -- What the first message with the right number gives.
  abbrev pub outcome : NetlinkMessage A → Reply A
  outcome msg = if msg.msg_type == nlmsg_error then dcb_error else received msg

  after_read-answer :
      (msg : NetlinkMessage A) (seq : ℕ) (more : Reply A)
      → after_read msg seq more ≡ (if answers seq msg then outcome msg else more)
  unfolding after_read check_error
  after_read-answer msg seq more = ground arith

  receive-find :
      (retries seq : ℕ) (last : NetlinkMessage A) (replies : List (NetlinkMessage A))
      (msg : NetlinkMessage A)
      → find (answers seq) (take retries replies) ≡ some msg
      → receive retries seq last replies ≡ outcome msg
  unfolding receive find take
  receive-find zero seq last replies msg h = absurd (ground arith)
  receive-find (suc retries) seq last [] msg h = absurd (ground arith)
  receive-find (suc retries) seq last (r ∷ replies) msg h =
      after_read-answer r seq _ ∙ ground (arith, receive-find retries seq r replies msg)

  -- If a message with the number of the request is among the first three that arrive, the call
  -- ends with that message, or with an error if it is an error message.
  send_and_receive-find :
      (seq : ℕ) (replies : List (NetlinkMessage A)) (msg : NetlinkMessage A)
      → find (answers seq) (take dcb_max_retries replies) ≡ some msg
      → send_and_receive seq replies ≡ outcome msg
  unfolding send_and_receive find take
  send_and_receive-find seq [] msg h = absurd (ground arith)
  send_and_receive-find seq (r ∷ replies) msg h =
      after_read-answer r seq _ ∙ ground (arith, receive-find 2 seq r replies msg)

  -- After three messages with other numbers, the call returns the third one as if it were the
  -- answer, and raises no error.
  pub send_and_receive-foreign :
      (seq : ℕ) (a b c : NetlinkMessage A) (replies : List (NetlinkMessage A))
      → answers seq a ≡ false
      → answers seq b ≡ false
      → answers seq c ≡ false
      → send_and_receive seq (a ∷ b ∷ c ∷ replies) ≡ received c
  unfolding send_and_receive receive
  send_and_receive-foreign seq a b c replies p q r =
      rw (after_read-answer, p) (rw (after_read-answer, q) (rw (after_read-answer, r) refl))
