-- ===== src/Modules/StrictWx.antt =====
-- modules/src/strict_wx.rs: the alert, its parser, the handler and the declaration.
use bouclier_bleu.Base.{
  ℕ, String, none, some, List, [], ◌∷◌, Text, Line, lit, num, str, codes, Outcome,
}
use bouclier_bleu.Exec.{pure, ◌>>=◌}
use bouclier_bleu.Reader.{Endian, Bytes, Parse, read_u32, read_string}
use bouclier_bleu.Host.{number, text, Payload, Handler, print}
use bouclier_bleu.Module.{Declaration, sized, no_capacities, no_init}

pub record StrictWxAlert : Type 0 where
  pub pid : ℕ
  pub syscall : Text

unfoldable pub read_alert : Endian → Parse StrictWxAlert
unfolding ◌>>=◌
read_alert e = do
  pid ← read_u32 e
  syscall ← read_string 16
  pure (record { pid = pid; syscall = syscall })

unfoldable pub try_from_bytes : Endian → Bytes → Outcome String StrictWxAlert × List Line
unfolding sized read_alert
try_from_bytes e bytes = sized 20 (read_alert e) bytes

abbrev pub payload : StrictWxAlert → Payload
payload a = ("pid", number a.pid) ∷ ("syscall", text a.syscall) ∷ []

unfoldable pub handler : {F : Type 0} → Handler F StrictWxAlert
handler alert env w =
    print
      (lit "Bouclier Bleu [BLOCK]: PID "
        ∷ num alert.pid
        ∷ lit " attempted shellcode injection via PROT_WRITE | PROT_EXEC on "
        ∷ str alert.syscall
        ∷ lit "."
        ∷ [])
      w

abbrev pub strict_wx : {F : Type 0} → Declaration F StrictWxAlert
strict_wx = record {
  name = "Strict Write XOR Execute (W^X)";
  slug = codes "strict_wx";
  mitre = "T1055" ∷ "T1620" ∷ "T1027.002" ∷ [];
  parser = try_from_bytes;
  payload = payload;
  handler = handler;
  xattr_watchlist = some (record {
    map_name = codes "strict_wx_binaries";
    attribute = codes "user.bouclier.strict_wx";
    target_paths =
        codes "/bin" ∷ codes "/sbin" ∷ codes "/usr/bin" ∷ codes "/usr/sbin" ∷ codes "/opt" ∷ [];
  });
  dynamic_watchlist = none;
  capacities = no_capacities;
  init = no_init;
}
