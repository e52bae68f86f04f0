-- ===== src/Rpc.antt =====
-- node/src/rpc.rs: the rpc methods that a full node serves, `none` where it does not know a method.
use Prim.Native.String.{String}
use vantiy_name_registry.Base.{◌≡◌, refl, ap, ◌∙◌, Option, none, some}

-- The framework's handlers, and what the two crates answer: `to_delegate` of `FullSystem` and of
-- `TransactionPayment`. An extension replaces the methods that it brings.
pub record Handlers (Client Pool DenyUnsafe : Type 0) : Type 1 where
  pub IoHandler : Type 0
  pub Delegate : Type 0
  pub Method : Type 0
  pub default : IoHandler
  pub extend_with : Delegate → IoHandler → IoHandler
  pub system_api : Client → Pool → DenyUnsafe → Delegate
  pub transaction_payment_api : Client → Delegate
  pub method_of : Delegate → String → Option Method
  pub serve : IoHandler → String → Option Method
  pub serve-default : (m : String) → serve default m ≡ none
  pub serve-new :
      (d : Delegate) (io : IoHandler) (m : String) (f : Method)
      → method_of d m ≡ some f
      → serve (extend_with d io) m ≡ some f
  pub serve-old :
      (d : Delegate) (io : IoHandler) (m : String)
      → method_of d m ≡ none
      → serve (extend_with d io) m ≡ serve io m

-- Full client dependencies.
pub record FullDeps (Client Pool DenyUnsafe : Type 0) : Type 0 where
  pub client : Client
  pub pool : Pool
  pub deny_unsafe : DenyUnsafe

module _ {Client Pool DenyUnsafe : Type 0} (H : Handlers Client Pool DenyUnsafe) where
  pub create_full : FullDeps Client Pool DenyUnsafe → H.IoHandler
  create_full deps =
      let io = H.default in
      let io = H.extend_with (H.system_api deps.client deps.pool deps.deny_unsafe) io in
      let io = H.extend_with (H.transaction_payment_api deps.client) io in io

  abbrev or_else : Option H.Method → Option H.Method → Option H.Method
  or_else none other = other
  or_else (some f) other = some f

  serve-extend_with :
      (d : H.Delegate) (io : H.IoHandler) (m : String)
      → H.serve (H.extend_with d io) m ≡ or_else (H.method_of d m) (H.serve io m)
  serve-extend_with d io m = go (H.method_of d m) refl
    where
      go :
          (o : Option H.Method)
          → H.method_of d m ≡ o
          → H.serve (H.extend_with d io) m ≡ or_else o (H.serve io m)
      go none e = H.serve-old d io m e
      go (some f) e = H.serve-new d io m f e

  -- A method is answered by the payment api where it has it, else by the system api, and else not at
  -- all.
  create_full-serves :
      (deps : FullDeps Client Pool DenyUnsafe) (m : String)
      → H.serve (create_full deps) m
        ≡ or_else
            (H.method_of (H.transaction_payment_api deps.client) m)
            (or_else (H.method_of (H.system_api deps.client deps.pool deps.deny_unsafe) m) none)
  unfolding create_full
  create_full-serves deps m =
      let system = H.system_api deps.client deps.pool deps.deny_unsafe in
      serve-extend_with (H.transaction_payment_api deps.client) (H.extend_with system H.default) m
      ∙ ap (or_else (H.method_of (H.transaction_payment_api deps.client) m)) (
          serve-extend_with system H.default m
          ∙ ap (or_else (H.method_of system m)) (H.serve-default m))
