-- ===== src/Server/State/Unmap.antt =====
-- The mappings that `unmap` leaves.
use waterproof_wrapper.Base.{ℕ, ◌≡◌, ◌∙◌, arith, none, if◌then◌else◌, ◌==◌}
use waterproof_wrapper.Base.Maps.{find, subscript, find-erase, find-insert}
use waterproof_wrapper.Utils.Exceptions.{api_error, parse_error, json_error}
use waterproof_wrapper.Platform.{Api}
use waterproof_wrapper.Json.{Json}
use waterproof_wrapper.Message.{Response}
use waterproof_wrapper.Server.Frame.{Outcome, done, closed, threw, stuck}
use waterproof_wrapper.Server.State.{Server, unmap, after_farewell}

-- The mappings when `unmap` has ended without an exception.
farewell_maps :
    {W : Type 0} (id k : ℕ) (s : Server) (o : Outcome (Unit {0})) (w : W)
    → (after_farewell id s o w).0 ≡ done tt
    → find k (after_farewell id s o w).1.client_map
      ≡ (if id == k then none else find k s.client_map)
unfolding after_farewell
farewell_maps id k s (done _) w h = find-erase id k s.client_map
farewell_maps id k s (threw (api_error e)) w h = find-erase id k s.client_map
farewell_maps id k s (threw parse_error) w h = cc
farewell_maps id k s (threw json_error) w h = cc
farewell_maps id k s closed w h = cc
farewell_maps id k s stuck w h = cc

module _ (a : Api) (j : Json) where
  -- When `unmap` ends without an exception, also after an error of the socket, the instance has no
  -- mapping and every other instance has the mapping that it had.
  pub unmap-find :
      (fuel id k : ℕ) (r : Response) (s : Server) (w : a.World)
      → (unmap a j fuel id r s w).0 ≡ done tt
      → find k (unmap a j fuel id r s w).1.client_map
        ≡ (if id == k then none else find k s.client_map)
  unfolding unmap subscript
  unmap-find fuel id k r s w h =
      farewell_maps id k _ _ _ h ∙ ground (arith, find-insert id k 0 s.client_map)
