-- ===== src/Result.antt =====
-- The errors that the modelled handlers return, and their propagation by `?`. The variants are
-- those of `MostroCantDo` and `MostroInternalErr` that the code names; messages are left out.

pub data Error : Type 0 where
  db_access unexpected nostr ln_node invoice_invalid : Error
  invalid_payload invalid_invoice not_allowed_by_status : Error
  external : Error

pub data Result {ℓ} (A : Type ℓ) : Type ℓ where
  ok : A → Result A
  err : Error → Result A
