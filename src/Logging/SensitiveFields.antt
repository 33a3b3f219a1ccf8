-- ===== src/Logging/SensitiveFields.antt =====
-- RecursivelyCensoredDictWrapper.SENSITIVE_FIELDS of pysoa/common/logging.py.
use pysoa.Prelude.{String, Bool, List, [], ◌∷◌, any, str_eq}

abbrev sensitive_fields : List String
sensitive_fields =
    "password" ∷ "pass" ∷ "passwd" ∷ "passphrase" ∷ "pass_phrase" ∷ "pass-phrase" ∷ "passPhrase"
    ∷ "passwords" ∷ "passwds" ∷ "passphrases" ∷ "pass_phrases" ∷ "pass-phrases" ∷ "passPhrases"
    ∷ "private" ∷ "private_key" ∷ "private-key" ∷ "privateKey" ∷ "privates" ∷ "private_keys"
    ∷ "private-keys" ∷ "privateKeys" ∷ "secret" ∷ "secret_key" ∷ "secret-key" ∷ "secretKey"
    ∷ "secrets" ∷ "secret_keys" ∷ "secret-keys" ∷ "secretKeys" ∷ "security_code" ∷ "security-code"
    ∷ "securityCode" ∷ "security_codes" ∷ "security-codes" ∷ "securityCodes" ∷ "auth" ∷ "token"
    ∷ "auth_token" ∷ "auth-token" ∷ "authToken" ∷ "authorization" ∷ "authorization_token"
    ∷ "authorization-token" ∷ "authorizationToken" ∷ "authentication" ∷ "authentication_token"
    ∷ "authentication-token" ∷ "authenticationToken" ∷ "credit_card" ∷ "credit-card" ∷ "creditCard"
    ∷ "credit_card_number" ∷ "credit-card-number" ∷ "creditCardNumber" ∷ "card_number"
    ∷ "card-number" ∷ "cardNumber" ∷ "cc_number" ∷ "cc-number" ∷ "ccNumber" ∷ "ccn" ∷ "credit_cards"
    ∷ "credit-cards" ∷ "creditCards" ∷ "credit_card_numbers" ∷ "credit-card-numbers"
    ∷ "creditCardNumbers" ∷ "card_numbers" ∷ "card-numbers" ∷ "cardNumbers" ∷ "cc_numbers"
    ∷ "cc-numbers" ∷ "ccNumbers" ∷ "ccns" ∷ "cid" ∷ "csc" ∷ "csn" ∷ "cvc" ∷ "cvc2" ∷ "cvd" ∷ "cve"
    ∷ "cvn2" ∷ "cvv" ∷ "cvv2" ∷ "icvv" ∷ "cids" ∷ "cscs" ∷ "csns" ∷ "cvcs" ∷ "cvc2s" ∷ "cvds"
    ∷ "cves" ∷ "cvn2s" ∷ "cvvs" ∷ "cvv2s" ∷ "icvvs" ∷ "card_id" ∷ "card-id" ∷ "cardId"
    ∷ "card_identification" ∷ "card-identification" ∷ "cardIdentification" ∷ "card_ids" ∷ "card-ids"
    ∷ "cardIds" ∷ "card_identifications" ∷ "card-identifications" ∷ "cardIdentifications"
    ∷ "card_identification_code" ∷ "card-identification-code" ∷ "cardIdentificationCode"
    ∷ "card_identification_codes" ∷ "card-identification-codes" ∷ "cardIdentificationCodes"
    ∷ "card_identification_number" ∷ "card-identification-number" ∷ "cardIdentificationNumber"
    ∷ "card_identification_numbers" ∷ "card-identification-numbers" ∷ "cardIdentificationNumbers"
    ∷ "card_identification_value" ∷ "card-identification-value" ∷ "cardIdentificationValue"
    ∷ "card_identification_values" ∷ "card-identification-values" ∷ "cardIdentificationValues"
    ∷ "card_security" ∷ "card-security" ∷ "cardSecurity" ∷ "card_securities" ∷ "card-securities"
    ∷ "cardSecurities" ∷ "card_security_code" ∷ "card-security-code" ∷ "cardSecurityCode"
    ∷ "card_security_codes" ∷ "card-security-codes" ∷ "cardSecurityCodes" ∷ "card_security_number"
    ∷ "card-security-number" ∷ "cardSecurityNumber" ∷ "card_security_numbers"
    ∷ "card-security-numbers" ∷ "cardSecurityNumbers" ∷ "card_security_value"
    ∷ "card-security-value" ∷ "cardSecurityValue" ∷ "card_security_values" ∷ "card-security-values"
    ∷ "cardSecurityValues" ∷ "card_validation" ∷ "card-validation" ∷ "cardValidation"
    ∷ "card_validations" ∷ "card-validations" ∷ "cardValidations" ∷ "card_validation_code"
    ∷ "card-validation-code" ∷ "cardValidationCode" ∷ "card_validation_codes"
    ∷ "card-validation-codes" ∷ "cardValidationCodes" ∷ "card_validation_number"
    ∷ "card-validation-number" ∷ "cardValidationNumber" ∷ "card_validation_numbers"
    ∷ "card-validation-numbers" ∷ "cardValidationNumbers" ∷ "card_validation_value"
    ∷ "card-validation-value" ∷ "cardValidationValue" ∷ "card_validation_values"
    ∷ "card-validation-values" ∷ "cardValidationValues" ∷ "card_verification" ∷ "card-verification"
    ∷ "cardVerification" ∷ "card_verifications" ∷ "card-verifications" ∷ "cardVerifications"
    ∷ "card_verification_code" ∷ "card-verification-code" ∷ "cardVerificationCode"
    ∷ "card_verification_codes" ∷ "card-verification-codes" ∷ "cardVerificationCodes"
    ∷ "card_verification_number" ∷ "card-verification-number" ∷ "cardVerificationNumber"
    ∷ "card_verification_numbers" ∷ "card-verification-numbers" ∷ "cardVerificationNumbers"
    ∷ "card_verification_value" ∷ "card-verification-value" ∷ "cardVerificationValue"
    ∷ "card_verification_values" ∷ "card-verification-values" ∷ "cardVerificationValues"
    ∷ "account_number" ∷ "account-number" ∷ "accountNumber" ∷ "account_numbers" ∷ "account-numbers"
    ∷ "accountNumbers" ∷ "bank_account" ∷ "bank-account" ∷ "bankAccount" ∷ "bank_accounts"
    ∷ "bank-accounts" ∷ "bankAccounts" ∷ "bank_account_number" ∷ "bank-account-number"
    ∷ "bankAccountNumber" ∷ "bank_account_numbers" ∷ "bank-account-numbers" ∷ "bankAccountNumbers"
    ∷ "pin" ∷ "pin_code" ∷ "pin-code" ∷ "pinCode" ∷ "pin_number" ∷ "pin-number" ∷ "pinNumber"
    ∷ "pins" ∷ "pin_codes" ∷ "pin-codes" ∷ "pinCodes" ∷ "pin_numbers" ∷ "pin-numbers" ∷ "pinNumbers"
    ∷ "personal_id_number" ∷ "personal-id-number" ∷ "personalIdNumber" ∷ "personal_id_numbers"
    ∷ "personal-id-numbers" ∷ "personalIdNumbers" ∷ "personal_identification_number"
    ∷ "personal-identification-number" ∷ "personalIdentificationNumber"
    ∷ "personal_identification_numbers" ∷ "personal-identification-numbers"
    ∷ "personalIdentificationNumbers" ∷ []

-- `k in cls.SENSITIVE_FIELDS`
unfoldable pub is_sensitive : String → Bool
is_sensitive k = any (λ name. str_eq name k) sensitive_fields
