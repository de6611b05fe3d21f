-- ===== src/Examples/Wire.antt =====
-- Messages on a connection at concrete inputs, with an archive that writes the bytes of a list.
use distributed_integration.Base.{ℕ, ◌≡◌, refl, inl, some, List, [], ◌∷◌, ◌++◌, arith, ok}
use distributed_integration.Base.Words.{u32}
use distributed_integration.Framing.{
  size_bytes, Codec, send_data, receive_data, send_all, receive_all, bad_size, short_read,
}
use distributed_integration.Framing.RoundTrip.{receive_all-send_all}
use distributed_integration.Framing.Limits.{receive_data-send_data_refused, receive_data_cut}

abbrev plain : Codec (List ℕ)
plain = record {
  encode = λ l. l;
  decode = λ l. some l;
  bad_data = "bad data";
  end_of_file = "End of file";
  to_string = λ n. "0";
}

send_runs : send_data ⦃c = plain⦄ (7 ∷ 8 ∷ 9 ∷ []) ≡ 0 ∷ 0 ∷ 0 ∷ 3 ∷ 7 ∷ 8 ∷ 9 ∷ []
unfolding send_data size_bytes u32
send_runs = refl

receive_all-send_all_example :
    receive_all ⦃c = plain⦄ 2 (send_all ⦃c = plain⦄ ((7 ∷ 8 ∷ []) ∷ (9 ∷ []) ∷ []) ++ (1 ∷ []))
    ≡ ok ((7 ∷ 8 ∷ []) ∷ (9 ∷ []) ∷ [], 1 ∷ [])
receive_all-send_all_example =
    receive_all-send_all ⦃c = plain⦄ ((7 ∷ 8 ∷ []) ∷ (9 ∷ []) ∷ []) (1 ∷ [])
      ((refl, omega arith, omega arith), ((refl, omega arith, omega arith), tt))

receive_data-send_data_refused_example :
    receive_data ⦃c = plain⦄ (send_data ⦃c = plain⦄ [] ++ (1 ∷ [])) ≡ bad_size ⦃c = plain⦄ 0
receive_data-send_data_refused_example =
    receive_data-send_data_refused ⦃c = plain⦄ [] (1 ∷ []) (inl refl) (omega arith)

receive_data_cut_example :
    receive_data ⦃c = plain⦄ (0 ∷ 0 ∷ 0 ∷ 2 ∷ 7 ∷ []) ≡ short_read ⦃c = plain⦄
unfolding send_data size_bytes u32
receive_data_cut_example =
    receive_data_cut ⦃c = plain⦄ (7 ∷ 8 ∷ []) (0 ∷ 0 ∷ 0 ∷ 2 ∷ 7 ∷ []) (8 ∷ [])
      (refl, omega arith, omega arith) refl (omega arith)
