-- ===== src/Notifications/Email.antt =====
-- EmailService (backend/src/modules/notifications/email.service.ts): the mail that a call would send;
-- every call returns true, since the sending is a stub.
use soro_lend.Prelude.{Bool, true, ◌++◌}
use soro_lend.Text.{Text, codes}
use soro_lend.Runtime.{Number}

pub record EmailPayload : Type 0 where
  pub to : Text
  pub subject : Text
  pub body : Text

-- What is logged, and what is returned.
unfoldable pub send_email : EmailPayload → EmailPayload × Bool
send_email payload = (payload, true)

unfoldable pub send_health_alert : (N : Number) → Text → Text → N.Value → EmailPayload × Bool
unfolding send_email
send_health_alert N email public_key health_factor = send_email (record {
  to = email;
  subject = codes "SoroLend - Health Factor Alert (" ++ (N.to_fixed 2 health_factor ++ codes ")");
  body =
      codes "Your position ("
      ++ (public_key
          ++ (codes ") has a health factor of "
              ++ (N.to_fixed 4 health_factor
                  ++ codes ". Please take action to avoid liquidation.")));
})

unfoldable pub send_liquidation_warning : Text → Text → EmailPayload × Bool
unfolding send_email
send_liquidation_warning email public_key = send_email (record {
  to = email;
  subject = codes "SoroLend - Liquidation Warning";
  body =
      codes "Your position ("
      ++ (public_key
          ++ codes
              ") has been partially liquidated. Please review your portfolio and add collateral or repay debt.");
})
