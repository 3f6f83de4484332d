-- ===== src/Invoice/Wallet.antt =====
-- What wallet-rpc answers to `create_address`: an address with its index, or an error.
use ghostbill.Prelude.{ℕ}

pub data RpcReply : Type 0 where
  created : ℕ → ℕ → RpcReply
  connection_error rpc_error : RpcReply
