-- ===== src/Api/Answers.antt =====
-- What the chain is given, and when.
use gxmis_plugin.Common.{
  ℕ, ◌⊎◌, if◌then◌else◌, is_empty, codes, Bool, Bool-cases, Option-cases, Result, Result-cases,
  Bytes, List, Option, some, true, false, ok, err, All, ◌≡◌, ◌∙◌, arith, inl, inr, sym, refl, ap,
}
use gxmis_plugin.Api.{ChainApi, callback, or_object, push_action_call}
use gxmis_plugin.Plugin.Wallets.{
  WalletApi, Exit, done, raised, terminated, destroyed, parse_wltpwd, with_wallets, unlock_all,
  lock_all, WalletParams,
}
use gxmis_plugin.Plugin.Wallets.Guard.{WalletLaws}
use gxmis_plugin.Plugin.Actions.{Library, AbiCache, Action}
use gxmis_plugin.Plugin.Actions.Create.{SystemLibrary, PushActionParams, create_push_action}
use gxmis_plugin.Plugin.Actions.Transaction.{
  Node, Reply, SignedTransaction, empty_variant, packed_transaction, trx_only_signed, push_actions,
  run_block, push_action, determine_required_keys, may_push_transaction, broadcast,
}
use gxmis_plugin.Plugin.Actions.Push.{push_action-Closed, push_action-created}

module _ {World : Type 0} (node : Node World) where
  -- Only signing leaves a packed transaction.
  push_actions-packed :
      (actions : List Action) (w : World) (reply : Reply)
      → (run_block node (push_actions node actions trx_only_signed) w).1 ≡ done reply
      → (t : SignedTransaction) × (reply ≡ packed_transaction t)
  unfolding push_actions may_push_transaction determine_required_keys broadcast run_block
  push_actions-packed actions w (packed_transaction t) h = (t, refl)
  push_actions-packed actions w empty_variant h = absurd (ground (arith, h))

module _ {World : Type 0} (api : WalletApi World) where
  destroyed-done :
      {A : Type 0} (w : World) (result : Exit A) (closing : World × Bool) (a : A)
      → (destroyed api w result closing).1 ≡ done a
      → result ≡ done a
  unfolding destroyed
  destroyed-done w (done b) closing a h = ground (arith, h)
  destroyed-done w raised closing a h = absurd (ground (arith, h))
  destroyed-done w terminated closing a h = absurd (ground (arith, h))

  -- A block that ends behind a guard has itself ended.
  with_wallets-done :
      {A : Type 0} (wps : List WalletParams) (body : World → World × Exit A) (w : World) (a : A)
      → (with_wallets api wps body w).1 ≡ done a
      → (body ((unlock_all api w wps).0)).1 ≡ done a
  unfolding with_wallets
  with_wallets-done wps body w a h =
      let (w1, ready) = unlock_all api w wps in
      let (w2, result) = body w1 in
      ground (arith, h, destroyed-done w2 result (lock_all api w2 wps) a)

module _ {World : Type 0} (api : WalletApi World) where
  with_wallets-unlocked :
      {A : Type 0} (wps : List WalletParams) (body : World → World × Exit A) (w : World) (a : A)
      → (with_wallets api wps body w).1 ≡ done a
      → (unlock_all api w wps).1 ≡ true
  unfolding with_wallets
  with_wallets-unlocked wps body w a h = ground (arith, h)

Exit-cases :
    {A : Type 0} (x : Exit A) → ((a : A) × (x ≡ done a)) ⊎ ((x ≡ raised) ⊎ (x ≡ terminated))
Exit-cases (done a) = inl (a, refl)
Exit-cases raised = inr (inl refl)
Exit-cases terminated = inr (inr refl)

module _ {World : Type 0} (chain : ChainApi World) where
  open chain use {Exception, Results, to_string, handle_exception}

  -- How the result of the chain is answered: 202 with the results in JSON, or as the HTTP plugin
  -- answers the exception for the text of the call.
  abbrev pub AnswerOf : Bytes → Result Exception Results → ℕ → Bytes → Type 0
  AnswerOf text result code answer =
      ((results : Results) × (result ≡ ok results) × (code ≡ 202) × (answer ≡ to_string results))
      ⊎ ((e : Exception) × (result ≡ err e) × (handle_exception text e ≡ (code, answer)))

  callback-AnswerOf :
      (text : Bytes) (result : Result Exception Results) (code : ℕ) (answer : Bytes)
      → callback chain text result ≡ (code, answer)
      → AnswerOf text result code answer
  unfolding callback
  callback-AnswerOf text (ok results) code answer h =
      inl (results, refl, ground (arith, h), ground (arith, h))
  callback-AnswerOf text (err e) code answer h = inr (e, refl, h)

module _ {World : Type 0} (chain : ChainApi World) (node : Node World) (lib : Library)
    (system : SystemLibrary) (get_abi : Bytes → Option lib.Abi) (api : WalletApi World)
    (split : Bytes → List Bytes) where
  abbrev pub after_push :
      PushActionParams → AbiCache lib → World → (AbiCache lib × World) × Exit Reply
  after_push params cache w = push_action node lib system get_abi api split params (cache, w)

  push_action-packed :
      (params : PushActionParams) (cache : AbiCache lib) (w : World) (actions : List Action)
      (reply : Reply)
      → (create_push_action lib system get_abi params cache).1 ≡ ok actions
      → (after_push params cache w).1 ≡ done reply
      → (t : SignedTransaction) × (reply ≡ packed_transaction t)
  push_action-packed params cache w actions reply created ended =
      let (same, exit) =
        push_action-created node lib system get_abi api split params cache w actions created in
      let wps = parse_wltpwd split lib.trim params.wltpwd in
      let body = run_block node (push_actions node actions trx_only_signed) in
      push_actions-packed node actions ((unlock_all api w wps).0) reply
        (with_wallets-done api wps body w reply (sym exit ∙ ended))

  -- Where `push_action` has ended, its actions were created.
  push_action-actions :
      (params : PushActionParams) (cache : AbiCache lib) (w : World) (reply : Reply)
      → (after_push params cache w).1 ≡ done reply
      → (actions : List Action) × ((create_push_action lib system get_abi params cache).1
          ≡ ok actions)
  unfolding push_action
  push_action-actions params cache w reply ended =
      elim (Result-cases ((create_push_action lib system get_abi params cache).1)) [
        | inr (e, failed) ↦ absurd (ground (arith, failed, ended))
        | inl (actions, created) ↦ (actions, created)
      ]

  -- And its wallets were unlocked.
  push_action-ready :
      (params : PushActionParams) (cache : AbiCache lib) (w : World) (actions : List Action)
      (reply : Reply)
      → (create_push_action lib system get_abi params cache).1 ≡ ok actions
      → (after_push params cache w).1 ≡ done reply
      → (unlock_all api w (parse_wltpwd split lib.trim params.wltpwd)).1 ≡ true
  push_action-ready params cache w actions reply created ended =
      let (same, exit) =
        push_action-created node lib system get_abi api split params cache w actions created in
      with_wallets-unlocked api (parse_wltpwd split lib.trim params.wltpwd)
        (run_block node (push_actions node actions trx_only_signed)) w reply (sym exit ∙ ended)

  -- What the handler has done when it answers.
  pub record Answered (laws : WalletLaws api) (body : Bytes) (cache : AbiCache lib) (w : World)
      (cache' : AbiCache lib) (w' : World) (code : ℕ) (answer : Bytes) : Type 0 where
    pub params : PushActionParams
    pub t : SignedTransaction
    pub valid : chain.validate w ≡ true
    pub read : chain.params_from_string (if is_empty body then codes "{}" else body) ≡ some params
    pub signed : (after_push params cache w).1 ≡ done (packed_transaction t)
    pub closed :
        All
          (λ wp. laws.is_open ((after_push params cache w).0.1) wp.name ≡ false)
          (parse_wltpwd split lib.trim params.wltpwd)
    pub given : (chain.push_transaction t ((after_push params cache w).0.1)).0 ≡ w'
    pub cache_left : (after_push params cache w).0.0 ≡ cache'
    pub answered :
        AnswerOf chain
          (if is_empty body then codes "{}" else body)
          ((chain.push_transaction t ((after_push params cache w).0.1)).1)
          code
          answer

  signed-Answered :
      (laws : WalletLaws api) (body : Bytes) (cache cache' : AbiCache lib) (w w' : World) (code : ℕ)
      (answer : Bytes) (params : PushActionParams) (t : SignedTransaction)
      → chain.validate w ≡ true
      → chain.params_from_string (or_object body) ≡ some params
      → (after_push params cache w).1 ≡ done (packed_transaction t)
      → push_action_call chain node lib system get_abi api split body (cache, w)
        ≡ ((cache', w'), done (code, answer))
      → Answered laws body cache w cache' w' code answer
  unfolding push_action_call
  signed-Answered laws body cache cache' w w' code answer params t valid read signed h =
      let (actions, created) = push_action-actions params cache w (packed_transaction t) signed in
      record {
        params = params;
        t = t;
        valid = valid;
        read = read;
        signed = signed;
        closed =
            push_action-Closed node lib system get_abi api split laws params cache w actions created
              (push_action-ready params cache w actions (packed_transaction t) created signed)
              (λ ended. absurd (ground (arith, ended, signed)));
        given = ground (arith, valid, read, signed, h);
        cache_left = ground (arith, valid, read, signed, h);
        answered =
            callback-AnswerOf chain (or_object body)
              ((chain.push_transaction t ((after_push params cache w).0.1)).1) code answer
              (ground (arith, valid, read, signed, h));
      }

  -- The handler answers only where the state was valid, the parameters were read and `push_action`
  -- returned a signed transaction. The chain was then given this transaction, with all wallets closed
  -- that the parameters name; the answer is 202 with the chain's results, or what the HTTP plugin makes
  -- of the chain's exception. An empty body stands for `{}`.
  pub push_action_call-Answered :
      (laws : WalletLaws api) (body : Bytes) (cache cache' : AbiCache lib) (w w' : World) (code : ℕ)
      (answer : Bytes)
      → push_action_call chain node lib system get_abi api split body (cache, w)
        ≡ ((cache', w'), done (code, answer))
      → Answered laws body cache w cache' w' code answer
  unfolding push_action_call
  push_action_call-Answered laws body cache cache' w w' code answer h =
      elim (Bool-cases (chain.validate w)) [
        | inr invalid ↦ absurd (ground (arith, invalid, h))
        | inl valid ↦ elim (Option-cases (chain.params_from_string (or_object body))) [
          | inl unread ↦ absurd (ground (arith, valid, unread, h))
          | inr (params, read) ↦ elim (Exit-cases ((after_push params cache w).1)) [
            | inr (inl failed) ↦ absurd (ground (arith, valid, read, failed, h))
            | inr (inr killed) ↦ absurd (ground (arith, valid, read, killed, h))
            | inl (reply, ended) ↦
                let (actions, created) = push_action-actions params cache w reply ended in
                let (t, packed) = push_action-packed params cache w actions reply created ended in
                signed-Answered laws body cache cache' w w' code answer params t valid read
                  (ended ∙ ap done packed) h
          ]
        ]
      ]
